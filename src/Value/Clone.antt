-- ===== src/Value/Clone.antt =====
-- `cloneValue` of utils/serialize.ts is idempotent.
use bullmq_durable.Base.{◌≡◌, ◌≢◌, refl}
use bullmq_durable.Value.{
  Value, Items, Fields, undefined, null, nan, bool, num, text, date, arr, obj, nil, cons, end,
  field, json, json_items, json_fields, clone_value,
}

mutual
  unfolding json json_items json_fields

  json-json : (v : Value) → json (json v) ≡ json v
  json-json undefined = refl
  json-json null = refl
  json-json nan = refl
  json-json (bool b) = refl
  json-json (num n) = refl
  json-json (text s) = refl
  json-json (date s) = refl
  json-json (arr xs) = λ i. arr (json_items-json_items xs i)
  json-json (obj fs) = λ i. obj (json_fields-json_fields fs i)

  json_items-json_items : (xs : Items) → json_items (json_items xs) ≡ json_items xs
  json_items-json_items nil = refl
  json_items-json_items (cons v xs) = λ i. cons (json-json v i) (json_items-json_items xs i)

  json_fields-json_fields : (fs : Fields) → json_fields (json_fields fs) ≡ json_fields fs
  json_fields-json_fields end = refl
  json_fields-json_fields (field k undefined fs) = json_fields-json_fields fs
  json_fields-json_fields (field k null fs) = λ i. field k null (json_fields-json_fields fs i)
  json_fields-json_fields (field k nan fs) = λ i. field k null (json_fields-json_fields fs i)
  json_fields-json_fields (field k (bool b) fs) =
      λ i. field k (bool b) (json_fields-json_fields fs i)
  json_fields-json_fields (field k (num n) fs) = λ i. field k (num n) (json_fields-json_fields fs i)
  json_fields-json_fields (field k (text s) fs) =
      λ i. field k (text s) (json_fields-json_fields fs i)
  json_fields-json_fields (field k (date s) fs) =
      λ i. field k (text s) (json_fields-json_fields fs i)
  json_fields-json_fields (field k (arr xs) fs) =
      λ i. field k (arr (json_items-json_items xs i)) (json_fields-json_fields fs i)
  json_fields-json_fields (field k (obj gs) fs) =
      λ i. field k (obj (json_fields-json_fields gs i)) (json_fields-json_fields fs i)

json-clone : (v : Value) → json v ≡ v → clone_value v ≡ v
unfolding clone_value
json-clone undefined e = refl
json-clone null e = e
json-clone v e = e

-- Cloning a clone changes nothing, so a checkpoint that is stored and read again, with a clone at
-- each, is the same.
pub clone_value-clone_value : (v : Value) → clone_value (clone_value v) ≡ clone_value v
unfolding clone_value
clone_value-clone_value undefined = refl
clone_value-clone_value null = json-clone (json null) (json-json null)
clone_value-clone_value v = json-clone (json v) (json-json v)

-- A value that JSON holds: no hole, no `undefined` field, no non-finite number and no object with a
-- `toJSON` method, at any depth.
unfoldable mutual
  pub IsJson : Value → Type 0
  IsJson undefined = ⊥
  IsJson null = Unit
  IsJson nan = ⊥
  IsJson (bool b) = Unit
  IsJson (num n) = Unit
  IsJson (text s) = Unit
  IsJson (date s) = ⊥
  IsJson (arr xs) = AreJson xs
  IsJson (obj fs) = HoldsJson fs

  pub AreJson : Items → Type 0
  AreJson nil = Unit
  AreJson (cons v xs) = IsJson v × AreJson xs

  pub HoldsJson : Fields → Type 0
  HoldsJson end = Unit
  HoldsJson (field k v fs) = IsJson v × HoldsJson fs

mutual
  unfolding json json_items json_fields IsJson AreJson HoldsJson

  json-IsJson : (v : Value) → IsJson (json v)
  json-IsJson undefined = tt
  json-IsJson null = tt
  json-IsJson nan = tt
  json-IsJson (bool b) = tt
  json-IsJson (num n) = tt
  json-IsJson (text s) = tt
  json-IsJson (date s) = tt
  json-IsJson (arr xs) = json_items-AreJson xs
  json-IsJson (obj fs) = json_fields-HoldsJson fs

  json_items-AreJson : (xs : Items) → AreJson (json_items xs)
  json_items-AreJson nil = tt
  json_items-AreJson (cons v xs) = (json-IsJson v, json_items-AreJson xs)

  json_fields-HoldsJson : (fs : Fields) → HoldsJson (json_fields fs)
  json_fields-HoldsJson end = tt
  json_fields-HoldsJson (field k undefined fs) = json_fields-HoldsJson fs
  json_fields-HoldsJson (field k null fs) = (tt, json_fields-HoldsJson fs)
  json_fields-HoldsJson (field k nan fs) = (tt, json_fields-HoldsJson fs)
  json_fields-HoldsJson (field k (bool b) fs) = (tt, json_fields-HoldsJson fs)
  json_fields-HoldsJson (field k (num n) fs) = (tt, json_fields-HoldsJson fs)
  json_fields-HoldsJson (field k (text s) fs) = (tt, json_fields-HoldsJson fs)
  json_fields-HoldsJson (field k (date s) fs) = (tt, json_fields-HoldsJson fs)
  json_fields-HoldsJson (field k (arr xs) fs) = (json_items-AreJson xs, json_fields-HoldsJson fs)
  json_fields-HoldsJson (field k (obj gs) fs) = (json_fields-HoldsJson gs, json_fields-HoldsJson fs)

mutual
  unfolding json json_items json_fields IsJson AreJson HoldsJson

  json-same : (v : Value) → IsJson v → json v ≡ v
  json-same undefined h = absurd h
  json-same null h = refl
  json-same nan h = absurd h
  json-same (bool b) h = refl
  json-same (num n) h = refl
  json-same (text s) h = refl
  json-same (date s) h = absurd h
  json-same (arr xs) h = λ i. arr (json_items-same xs h i)
  json-same (obj fs) h = λ i. obj (json_fields-same fs h i)

  json_items-same : (xs : Items) → AreJson xs → json_items xs ≡ xs
  json_items-same nil h = refl
  json_items-same (cons v xs) (h, t) = λ i. cons (json-same v h i) (json_items-same xs t i)

  json_fields-same : (fs : Fields) → HoldsJson fs → json_fields fs ≡ fs
  json_fields-same end h = refl
  json_fields-same (field k undefined fs) (h, t) = absurd h
  json_fields-same (field k nan fs) (h, t) = absurd h
  json_fields-same (field k (date s) fs) (h, t) = absurd h
  json_fields-same (field k null fs) (h, t) = λ i. field k null (json_fields-same fs t i)
  json_fields-same (field k (bool b) fs) (h, t) = λ i. field k (bool b) (json_fields-same fs t i)
  json_fields-same (field k (num n) fs) (h, t) = λ i. field k (num n) (json_fields-same fs t i)
  json_fields-same (field k (text s) fs) (h, t) = λ i. field k (text s) (json_fields-same fs t i)
  json_fields-same (field k (arr xs) fs) (h, t) =
      λ i. field k (arr (json_items-same xs h i)) (json_fields-same fs t i)
  json_fields-same (field k (obj gs) fs) (h, t) =
      λ i. field k (obj (json_fields-same gs h i)) (json_fields-same fs t i)

clone-IsJson : (v : Value) → v ≢ undefined → IsJson (clone_value v)
unfolding clone_value
clone-IsJson undefined ne = absurd (ne refl)
clone-IsJson null ne = json-IsJson null
clone-IsJson v ne = json-IsJson v

clone-same : (w : Value) → IsJson w → clone_value w ≡ w
unfolding clone_value
clone-same undefined h = refl
clone-same null h = json-same null h
clone-same v h = json-same v h

-- What `cloneValue` makes of a value other than `undefined` is a value that JSON holds, and a value
-- that JSON holds is cloned to itself.
pub clone_value-IsJson :
    (v w : Value) → v ≢ undefined → IsJson w → IsJson (clone_value v) × (clone_value w ≡ w)
clone_value-IsJson v w ne h = (clone-IsJson v ne, clone-same w h)
