-- ===== src/Responses.antt =====
-- responses.py: the Responses API on top of the Chat Completions of the channels.
-- Here the items and events of a response; Stream has the translation of a stream, Reply of a whole reply, Request of a request.
pub mod Stream
pub mod Reading
pub mod Chunks
pub mod Ending
pub mod Client
pub mod Shown
pub mod Owned
pub mod Steps
pub mod Turns
pub mod Consistent
pub mod Complete
pub mod Verdict
pub mod Request
pub mod Grouped
pub mod Reply
pub mod Items
pub mod Added
pub mod Reasons
pub mod Replied
mod Tests
mod RequestTests
use buddy2api.Prelude.{ℕ, Bool, true, false, Option, String, List}
use buddy2api.History.{Json, Fields}

-- What the standard library gives, with its text: `json.loads` (`none` where it raises), `json.dumps` with and without `ensure_ascii=False`, `str`, `int` (an integer by its text), `+`, `==` of values that are no texts, the pairs `dict.update` takes from a value that is no dict, the text of a TypeError, ValueError or AttributeError, and `os.urandom(12).hex()` by the number of its call.
pub record Python : Type 0 where
  pub loads : String → Option Json
  pub dumps : Json → String
  pub dumps_ascii : Json → String
  pub str_of : Json → String
  pub int : Json → Option String
  pub add : Json → Json → Option Json
  pub equal : Json → Json → Bool
  pub pairs : Json → Option Fields
  pub message : String → Json → String
  pub urandom : ℕ → String

pub data Kind : Type 0 where
  reasoning text tool : Kind

pub data ItemStatus : Type 0 where
  in_progress completed incomplete failed : ItemStatus

-- An output item: `text` is the text of the summary or of the content, or the arguments of the call.
pub record Item : Type 0 where
  pub kind : Kind
  pub id : String
  pub call_id : Json
  pub name : String
  pub text : String
  pub status : ItemStatus

-- An entry of `item_states`; the texts of the item and of its state are the same.
pub record ItemState : Type 0 where
  pub item : Item
  pub closed : Bool

pub record StreamError : Type 0 where
  pub code : String
  pub message : String

pub record Response : Type 0 where
  pub id : String
  pub created_at : ℕ
  pub status : ItemStatus
  pub model : Json
  pub output : List Item
  pub error : Option StreamError
  pub incomplete_details : Option String
  pub usage : Option Fields
  pub request_fields : Fields

-- An event without its number; the item id and the output index where it has them. A closing part and the arguments of a call carry the whole text.
pub data Body : Type 0 where
  created : Response → Body
  started : Response → Body
  item_added : ℕ → Item → Body
  part_added : Kind → String → ℕ → Body
  delta : Kind → String → ℕ → String → Body
  text_done : Kind → String → ℕ → String → Body
  part_done : Kind → String → ℕ → String → Body
  item_done : ℕ → Item → Body
  terminal : Response → Body

pub record StreamEvent : Type 0 where
  pub sequence_number : ℕ
  pub body : Body
