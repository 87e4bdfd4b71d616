-- ===== src/Json/Order.antt =====
-- The canonical text of a value does not depend on the order in which objects list their members.
use mgds.Prelude.{
  List, Text, [], arith, refl, text_le_lt_trans, text_lt_asymm, text_lt_total, ◌∙◌, ◌∷◌, ◌≡◌, ◌≢◌,
}
use mgds.Json.{
  Value, Items, Fields, nil, cons, end, field, arr, obj, insert_key, sort_keys, canonical,
  canonical_items, canonical_fields,
}

insert_key_comm :
    (p q : Text × Text) (r : List (Text × Text))
    → p.0 ≢ q.0
    → insert_key p (insert_key q r) ≡ insert_key q (insert_key p r)
unfolding insert_key
insert_key_comm p q [] ne =
    ground (arith, text_lt_asymm p.0 q.0, text_lt_asymm q.0 p.0, text_lt_total p.0 q.0)
insert_key_comm p q (c ∷ r) ne = ground (
  arith,
  insert_key_comm p q r ne,
  text_lt_asymm p.0 q.0,
  text_lt_asymm q.0 p.0,
  text_lt_total p.0 q.0,
  text_le_lt_trans p.0 c.0 q.0,
  text_le_lt_trans q.0 c.0 p.0,
)

-- Two values that differ only in the order of members, at any depth.
mutual
  pub data SameValue : Value → Value → Type 0 where
    same : (v : Value) → SameValue v v
    items : {xs ys : Items} → SameItems xs ys → SameValue (arr xs) (arr ys)
    members : {fs gs : Fields} → SameFields fs gs → SameValue (obj fs) (obj gs)

  pub data SameItems : Items → Items → Type 0 where
    no_items : SameItems nil nil
    both :
        {v w : Value} {xs ys : Items}
        → SameValue v w
        → SameItems xs ys
        → SameItems (cons v xs) (cons w ys)

  pub data SameFields : Fields → Fields → Type 0 where
    no_members : SameFields end end
    below :
        {v w : Value} {fs gs : Fields} (k : Text)
        → SameValue v w
        → SameFields fs gs
        → SameFields (field k v fs) (field k w gs)
    swap :
        (k l : Text) (v w : Value) (fs : Fields)
        → k ≢ l
        → SameFields (field k v (field l w fs)) (field l w (field k v fs))
    then_also : {fs gs hs : Fields} → SameFields fs gs → SameFields gs hs → SameFields fs hs

mutual
  unfolding canonical sort_keys

  canonical_same : {v w : Value} → SameValue v w → canonical v ≡ canonical w
  canonical_same (same v) = refl
  canonical_same (items h) = cc (canonical_items_same h)
  canonical_same (members h) = cc (canonical_fields_same h)

  canonical_items_same : {xs ys : Items} → SameItems xs ys → canonical_items xs ≡ canonical_items ys
  canonical_items_same no_items = refl
  canonical_items_same (both h hs) = cc (canonical_same h, canonical_items_same hs)

  canonical_fields_same :
      {fs gs : Fields}
      → SameFields fs gs
      → sort_keys (canonical_fields fs) ≡ sort_keys (canonical_fields gs)
  canonical_fields_same no_members = refl
  canonical_fields_same (below k h hs) = cc (canonical_same h, canonical_fields_same hs)
  canonical_fields_same (swap k l v w fs ne) =
      insert_key_comm (k, canonical v) (l, canonical w) (sort_keys (canonical_fields fs)) ne
  canonical_fields_same (then_also h k) = canonical_fields_same h ∙ canonical_fields_same k

-- Values that differ only in the order of their objects' members, at any depth and where no two
-- swapped members share a key, have one canonical text.
pub canonical-SameValue : (v w : Value) → SameValue v w → canonical v ≡ canonical w
canonical-SameValue v w h = canonical_same h
