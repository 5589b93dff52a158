-- ===== src/Pdu/Exception.antt =====
-- The class PduException of xx_chat_server/src/base/util_pdu.h, and a call that may throw one.
use Prim.Native.String.{String}
use xx_chat.Base.{ℕ}

pub record PduException : Type 0 where
  pub service_id : ℕ
  pub command_id : ℕ
  pub error_code : ℕ
  pub error_msg : String

abbrev pub error_code_parse_failed : ℕ
error_code_parse_failed = 1

-- The constructor with two arguments.
unfoldable pub pdu_exception : ℕ → String → PduException
pdu_exception code msg = record {
  service_id = 0;
  command_id = 0;
  error_code = code;
  error_msg = msg;
}

-- What a stream throws when the bytes do not suffice.
abbrev pub parse_failed : PduException
unfolding pdu_exception
parse_failed = pdu_exception error_code_parse_failed "parase packet failed!"

pub data Result {ℓ} (A : Type ℓ) : Type ℓ where
  ok : A → Result A
  throw : PduException → Result A

infixl 5 ◌>>=◌
abbrev pub ◌>>=◌ {ℓ κ} : {A : Type ℓ} {B : Type κ} → Result A → (A → Result B) → Result B
ok a >>= f = f a
throw e >>= f = throw e
