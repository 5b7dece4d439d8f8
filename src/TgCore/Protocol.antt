-- ===== src/TgCore/Protocol.antt =====
-- tg_conductor/tg_core/protocol.py: messages as the rest of the program sees them, and the JSON form
-- of a trigger message. `raw` is the backend's own object and has no model; dates are microseconds.
use tg_conductor.Base.{ℕ, String, Option, none, List}
use tg_conductor.Base.Int.{ℤ}

pub record ButtonSpec : Type 0 where
  pub text : String
  pub callback_data : Option String
  pub url : Option String

pub record Message : Type 0 where
  pub id : ℕ
  pub chat_id : ℤ
  pub date : ℕ
  pub text : Option String
  pub from_user_id : Option ℤ
  pub topic_id : Option ℤ
  pub buttons : Option (List (List ButtonSpec))

pub record MessagePayload : Type 0 where
  pub id : ℕ
  pub chat_id : ℤ
  pub date : ℕ
  pub text : Option String
  pub from_user_id : Option ℤ
  pub topic_id : Option ℤ

unfoldable pub message_to_payload : Message → MessagePayload
message_to_payload msg = record {
  id = msg.id;
  chat_id = msg.chat_id;
  date = msg.date;
  text = msg.text;
  from_user_id = msg.from_user_id;
  topic_id = msg.topic_id;
}

unfoldable pub message_from_payload : MessagePayload → Message
message_from_payload payload = record {
  id = payload.id;
  chat_id = payload.chat_id;
  date = payload.date;
  text = payload.text;
  from_user_id = payload.from_user_id;
  topic_id = payload.topic_id;
  buttons = none;
}
