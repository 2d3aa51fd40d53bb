-- ===== src/StableStorage/Errors.antt =====
-- `enum Error` of lib.rs. What an encoder or a decoder answers in detail is not modelled.
use metamagic.StableStorage.Header as HeaderModule

pub data Error : Type 0 where
  msg_pack_decode msg_pack_encode bincode io : Error
  header : HeaderModule.Error → Error
