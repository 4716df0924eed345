-- ===== src/Protocol/Message.antt =====
-- company_ref_protocol.proto: the requests of a client (`ServerMessage`) and the answers (`ClientMessage`).
-- A field of a message that may be absent is an option.
use refer.Base.{ℕ, Bool, false, Option, none, List}
use refer.Text.{Text}
use refer.ValueData.{Value}

-- `VsResult_Status`
pub data Status : Type 0 where
  success error_not_found wrong_value_type range_error enum_error access_error : Status

pub record VsResult {ℓ} (N : Type ℓ) : Type ℓ where
  pub sequence_no : ℕ
  pub status : Status
  pub values : List (Value N)

-- `VsMultiGetResult_ErrorCode`
pub data GetError : Type 0 where
  success value_not_found : GetError

-- `VsMultiGetResult_Result`
pub record GetResult {ℓ} (N : Type ℓ) : Type ℓ where
  pub error : GetError
  pub description : Text
  pub values : List (Value N)

-- `VsMultiSetResult_ErrorCode`
pub data SetError : Type 0 where
  success unknown_error value_not_found : SetError

-- `VsMultiSetResult_Result`
pub record SetResult : Type 0 where
  pub error : SetError
  pub description : Text
  pub id : Text

-- `VsMultiGetResult`, `VsMultiSetResult`
pub record MultiResult {ℓ} (R : Type ℓ) : Type ℓ where
  pub sequence_no : ℕ
  pub results : List R

pub record ValueRemoved : Type 0 where
  pub ids : List Text
  pub hash_tokens : List ℕ

pub record ClientMessage {ℓ} (N : Type ℓ) : Type ℓ where
  pub value_changed : Option (List (Value N))
  pub value_removed : Option ValueRemoved
  pub vs_result : Option (VsResult N)
  pub vs_multi_get_result : Option (MultiResult (GetResult N))
  pub vs_multi_set_result : Option (MultiResult SetResult)
  pub vs_sync_completed : Bool

-- A new message.
abbrev pub new_message {ℓ} : {N : Type ℓ} → ClientMessage N
new_message = record {
  value_changed = none;
  value_removed = none;
  vs_result = none;
  vs_multi_get_result = none;
  vs_multi_set_result = none;
  vs_sync_completed = false;
}

-- `VsSubscribe`, `VsMultiGet`
pub record Ids : Type 0 where
  pub sequence_no : ℕ
  pub ids : List Text

-- `VsGetValue`, `VsGetObject`
pub record OneId : Type 0 where
  pub sequence_no : ℕ
  pub id : Text

pub record VsSetValue : Type 0 where
  pub sequence_no : ℕ
  pub id : Text
  pub value : Text

pub record VsMultiSet : Type 0 where
  pub sequence_no : ℕ
  pub values : List (Text × Text)

-- `VsSync` and `ValueRemoved` are the ids, `VsUnsubscribe` and `VsGetAll` are the sequence number, and
-- `ValueChanged` is the values.
pub record ServerMessage {ℓ} (N : Type ℓ) : Type ℓ where
  pub vs_sync : Option (List Text)
  pub value_changed : Option (List (Value N))
  pub vs_subscribe : Option Ids
  pub vs_unsubscribe : Option ℕ
  pub vs_get_all : Option ℕ
  pub vs_get_value : Option OneId
  pub vs_set_value : Option VsSetValue
  pub value_removed : Option (List Text)
  pub vs_get_object : Option OneId
  pub vs_multi_get : Option Ids
  pub vs_multi_set : Option VsMultiSet
