-- ===== src/Msg/Attach.antt =====
-- AttachData of xx_chat_server/src/msg_server/attach_data.h and attach_data.cpp: what the message
-- server adds to a request to the database server and gets back in the answer.
use xx_chat.Base.{ℕ, List}
use xx_chat.Pdu.Exception.{Result, ok, ◌>>=◌}
use xx_chat.Pdu.SimpleBuffer.{empty}
use xx_chat.Pdu.ByteStream.{ByteStream, of_bytes, of_simple_buffer, put_uint32, get_uint32}

pub record AttachData : Type 0 where
  pub type_ : ℕ
  pub handle : ℕ
  pub service_type : ℕ

-- The constructor that serializes: the stream over the buffer of the object.
unfoldable pub serialize : ℕ → ℕ → ℕ → ByteStream
serialize type_ handle service_type =
    put_uint32 (put_uint32 (put_uint32 (of_simple_buffer empty 0) type_) handle) service_type

-- The constructor that reads the bytes of another.
unfoldable pub deserialize : List ℕ → ℕ → Result AttachData
deserialize attach_data attach_len = do
  (type_, s1) ← get_uint32 (of_bytes attach_data attach_len)
  (handle, s2) ← get_uint32 s1
  (service_type, s3) ← get_uint32 s2
  ok (record { type_ = type_; handle = handle; service_type = service_type })
