-- ===== src/Pdu.antt =====
-- Messages as bytes: util_pdu.h, util_pdu.cpp, im_pdu_base.h and im_pdu_base.cpp of
-- xx_chat_server/src/base.
pub mod SimpleBuffer
mod Tests
pub mod Words
pub mod Exception
pub mod ByteStream
pub mod ImPdu
