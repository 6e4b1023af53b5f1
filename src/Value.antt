-- ===== src/Value.antt =====
-- utils/serialize.ts: the values that user code hands to the runtime, and `cloneValue`, the
-- round trip through JSON that a store makes of each. A `Date` stands for any object with a
-- `toJSON` method and carries the text that it gives; a non-finite number is `nan`. Functions,
-- symbols, BigInts and cyclic objects are left out. Numbers are natural.
pub mod Clone
use bullmq_durable.Base.{ℕ, String, Bool}

mutual
  pub data Value : Type 0 where
    undefined null nan : Value
    obj : Fields → Value
    arr : Items → Value
    date text : String → Value
    num : ℕ → Value
    bool : Bool → Value

  pub data Items : Type 0 where
    cons : Value → Items → Items
    nil : Items

  pub data Fields : Type 0 where
    field : String → Value → Fields → Fields
    end : Fields

-- The value that stands after `JSON.parse(JSON.stringify(value))` in an array: a hole is `null`.
-- In an object, `undefined` fields are dropped.
unfoldable mutual
  pub json : Value → Value
  json undefined = null
  json null = null
  json nan = null
  json (bool b) = bool b
  json (num n) = num n
  json (text s) = text s
  json (date s) = text s
  json (arr xs) = arr (json_items xs)
  json (obj fs) = obj (json_fields fs)

  pub json_items : Items → Items
  json_items nil = nil
  json_items (cons v xs) = cons (json v) (json_items xs)

  pub json_fields : Fields → Fields
  json_fields end = end
  json_fields (field k undefined fs) = json_fields fs
  json_fields (field k null fs) = field k null (json_fields fs)
  json_fields (field k nan fs) = field k null (json_fields fs)
  json_fields (field k (bool b) fs) = field k (bool b) (json_fields fs)
  json_fields (field k (num n) fs) = field k (num n) (json_fields fs)
  json_fields (field k (text s) fs) = field k (text s) (json_fields fs)
  json_fields (field k (date s) fs) = field k (text s) (json_fields fs)
  json_fields (field k (arr xs) fs) = field k (arr (json_items xs)) (json_fields fs)
  json_fields (field k (obj gs) fs) = field k (obj (json_fields gs)) (json_fields fs)

-- `cloneValue`: `undefined` itself is kept.
unfoldable pub clone_value : Value → Value
unfolding json json_items json_fields
clone_value undefined = undefined
clone_value v = json v
