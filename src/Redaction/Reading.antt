-- ===== src/Redaction/Reading.antt =====
-- Values read along paths, before and after their redaction.
use backups_microservice.Prelude.{
  ℕ, zero, suc, ◌≡◌, refl, sym, subst, Bool, true, false, not, ◌&&◌, List, [], ◌∷◌, ◌++◌, ◌⊎◌, inl,
  inr, &&_iff, all, if◌then◌else◌, Bool-cases, arith,
}
use backups_microservice.Js.{Text, text_eq}
use backups_microservice.Js.Laws.{eq_of_text_eq}
use backups_microservice.Redaction.{
  Value, undefined, str, arr, obj, Items, nil, cons, Fields, end, field, Redactor, is_undefined,
  redacted, sanitize_value, sanitize_items, sanitize_fields,
}

-- A step of a path into a value: an index of an array, or a key of an object.
pub data Key : Type 0 where
  at : ℕ → Key
  key : Text → Key

unfoldable pub item : ℕ → Items → Value
item n nil = undefined
item zero (cons v vs) = v
item (suc n) (cons v vs) = item n vs

-- `fields[k]`. The keys of an object are distinct, and an entry that holds `undefined` reads as one
-- that is missing.
unfoldable pub get : Text → Fields → Value
get k end = undefined
get k (field k' v fs) =
    let rest = get k fs in if text_eq k' k && not (is_undefined v) then v else rest

-- `value[step]`, where a value that has no such part gives `undefined`.
unfoldable pub child : Key → Value → Value
unfolding item get
child (at n) (arr vs) = item n vs
child (key k) (obj fs) = get k fs
child _ _ = undefined

unfoldable pub read : List Key → Value → Value
unfolding child
read [] v = v
read (k ∷ p) v = read p (child k v)

abbrev pub is_plain_key : Redactor → Key → Bool
is_plain_key r (at n) = true
is_plain_key r (key k) = not (r.sensitive k)

unfoldable pub is_plain : Redactor → List Key → Bool
is_plain r p = all (is_plain_key r) p

item-sanitize_items :
    (r : Redactor) (n : ℕ) (vs : Items)
    → item n (sanitize_items r vs) ≡ sanitize_value r (item n vs)
unfolding item sanitize_value
item-sanitize_items r n nil = refl
item-sanitize_items r zero (cons v vs) = refl
item-sanitize_items r (suc n) (cons v vs) = item-sanitize_items r n vs

sanitize_undefined : (r : Redactor) (v : Value) → is_undefined (sanitize_value r v) ≡ is_undefined v
unfolding sanitize_value
sanitize_undefined r v = ground arith

get-sanitize_plain :
    (r : Redactor) (k : Text) (fs : Fields)
    → r.sensitive k ≡ false
    → get k (sanitize_fields r fs) ≡ sanitize_value r (get k fs)
unfolding get sanitize_value
get-sanitize_plain r k end h = refl
get-sanitize_plain r k (field k' v fs) h =
    ground (arith, get-sanitize_plain r k fs h, eq_of_text_eq k' k, sanitize_undefined r v)

get-sanitize_sensitive :
    (r : Redactor) (k : Text) (fs : Fields)
    → r.sensitive k ≡ true
    → (get k (sanitize_fields r fs) ≡ undefined) ⊎ (get k (sanitize_fields r fs) ≡ str redacted)
unfolding get sanitize_value
get-sanitize_sensitive r k end h = inl refl
get-sanitize_sensitive r k (field k' v fs) h =
    ground (arith, get-sanitize_sensitive r k fs h, eq_of_text_eq k' k)

child-sanitize_plain :
    (r : Redactor) (k : Key) (v : Value)
    → is_plain_key r k ≡ true
    → child k (sanitize_value r v) ≡ sanitize_value r (child k v)
unfolding child sanitize_value
child-sanitize_plain r (at n) (arr vs) h = item-sanitize_items r n vs
child-sanitize_plain r (key k) (obj fs) h =
    get-sanitize_plain r k fs (ground (arith, Bool-cases (r.sensitive k)))
child-sanitize_plain r (at n) _ h = refl
child-sanitize_plain r (key k) _ h = refl

-- Reads nothing, or the redacted text.
abbrev pub IsHidden : Value → Type 0
IsHidden v = (v ≡ undefined) ⊎ (v ≡ str redacted)

child-sanitize_sensitive :
    (r : Redactor) (k : Text) (v : Value)
    → r.sensitive k ≡ true
    → IsHidden (child (key k) (sanitize_value r v))
unfolding child sanitize_value
child-sanitize_sensitive r k (obj fs) h = get-sanitize_sensitive r k fs h
child-sanitize_sensitive r k _ h = inl refl

child-IsHidden : (k : Key) (v : Value) → IsHidden v → IsHidden (child k v)
unfolding child
child-IsHidden (at n) v h = ground arith
child-IsHidden (key k) v h = ground arith

read-IsHidden : (p : List Key) (v : Value) → IsHidden v → IsHidden (read p v)
unfolding read
read-IsHidden [] v h = h
read-IsHidden (k ∷ p) v h = read-IsHidden p (child k v) (child-IsHidden k v h)

pub read-sanitize_plain :
    (r : Redactor) (p : List Key) (v : Value)
    → is_plain r p ≡ true
    → read p (sanitize_value r v) ≡ sanitize_value r (read p v)
unfolding read is_plain
read-sanitize_plain r [] v h = refl
read-sanitize_plain r (k ∷ p) v h =
    let (here, there) = (&&_iff _ _).0 h in
    rw (child-sanitize_plain r k v here) (read-sanitize_plain r p (child k v) there)

-- Below a sensitive key, wherever it stands in a path, a redacted value has nothing to read but the
-- redacted text.
pub read-sanitize_sensitive :
    (r : Redactor) (p : List Key) (k : Text) (q : List Key) (v : Value)
    → r.sensitive k ≡ true
    → IsHidden (read (p ++ key k ∷ q) (sanitize_value r v))
unfolding read
read-sanitize_sensitive r [] k q v h =
    read-IsHidden q (child (key k) (sanitize_value r v)) (child-sanitize_sensitive r k v h)
read-sanitize_sensitive r (at n ∷ p) k q v h =
    let e : child (at n) (sanitize_value r v) ≡ sanitize_value r (child (at n) v) =
      child-sanitize_plain r (at n) v refl in
    subst (λ u. IsHidden (read (p ++ key k ∷ q) u)) (sym e)
      (read-sanitize_sensitive r p k q (child (at n) v) h)
read-sanitize_sensitive r (key j ∷ p) k q v h = elim (Bool-cases (r.sensitive j)) [
  | inl secret ↦
      read-IsHidden (p ++ key k ∷ q) (child (key j) (sanitize_value r v))
        (child-sanitize_sensitive r j v secret)
  | inr plain ↦
      let e : child (key j) (sanitize_value r v) ≡ sanitize_value r (child (key j) v) =
        child-sanitize_plain r (key j) v (rw plain) in
      subst (λ u. IsHidden (read (p ++ key k ∷ q) u)) (sym e)
        (read-sanitize_sensitive r p k q (child (key j) v) h)
]
