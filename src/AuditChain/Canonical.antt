-- ===== src/AuditChain/Canonical.antt =====
-- packages/audit-chain/src/canonical.ts: the canonical line of an event and its two hashes.
pub mod Injective
use vigil_apex_f.Common.{
  ℕ, zero, suc, ◌+◌, ◌/◌, ◌%◌, Bool, true, false, Option, none, some, List, [], ◌∷◌, ◌++◌, Text,
  codes, ltb, if◌then◌else◌,
}
use vigil_apex_f.AuditChain.Platform.{Platform}
use vigil_apex_f.AuditChain.Json.{
  Json, null, bool, num, str, arr, obj, Items, nil, cons, Fields, end, field, sort_keys,
}

pub record AuditEvent : Type 0 where
  pub seq : ℕ
  pub action : Text
  pub actor : Text
  pub subject_kind : Text
  pub subject_id : Text
  pub occurred_at : Text
  pub payload : Json

-- `String(n)` of a natural number. The fuel is above the number of digits.
unfoldable pub digits : ℕ → ℕ → Text → Text
digits zero n out = out
digits (suc f) n out =
    let rest = digits f (n / 10) ((b'0' + n % 10) ∷ out) in
    if ltb n 10 then (b'0' + n) ∷ out else rest

unfoldable pub decimal : ℕ → Text
unfolding digits
decimal n = digits (suc n) n []

-- `parts.join('|')`
unfoldable pub join : List Text → Text
join [] = []
join (s ∷ []) = s
join (s ∷ t ∷ rest) = s ++ (b'|' ∷ join (t ∷ rest))

abbrev pub bool_text : Bool → Text
bool_text true = codes "true"
bool_text false = codes "false"

module _ (p : Platform) where
  -- JSON.stringify with no indentation.
  unfoldable mutual
    pub stringify : Json → Text
    stringify null = codes "null"
    stringify (bool b) = bool_text b
    stringify (num n) = n
    stringify (str s) = p.quote s
    stringify (arr xs) = b'[' ∷ (stringify_items xs ++ (b']' ∷ []))
    stringify (obj fs) = b'{' ∷ (stringify_fields fs ++ (b'}' ∷ []))

    pub stringify_items : Items → Text
    stringify_items nil = []
    stringify_items (cons x nil) = stringify x
    stringify_items (cons x (cons y xs)) = stringify x ++ (b',' ∷ stringify_items (cons y xs))

    pub stringify_fields : Fields → Text
    stringify_fields end = []
    stringify_fields (field k v end) = p.quote k ++ (b':' ∷ stringify v)
    stringify_fields (field k v (field j w fs)) =
        p.quote k ++ (b':' ∷ (stringify v ++ (b',' ∷ stringify_fields (field j w fs))))

  unfoldable pub stable_json : Json → Text
  stable_json payload = stringify (sort_keys payload)

  unfoldable pub canonicalise : AuditEvent → Text
  canonicalise e = join (
      decimal e.seq
      ∷ e.action
      ∷ p.nfc e.actor
      ∷ e.subject_kind
      ∷ e.subject_id
      ∷ e.occurred_at
      ∷ p.nfc (stable_json e.payload)
      ∷ [])

  unfoldable pub body_hash : AuditEvent → Text
  body_hash e = p.sha256 (canonicalise e)

  -- '0'.repeat(64)
  abbrev pub zeros : Text
  zeros = codes "0000000000000000000000000000000000000000000000000000000000000000"

  abbrev pub hash_or_zeros : Option Text → Text
  hash_or_zeros none = zeros
  hash_or_zeros (some h) = h

  unfoldable pub row_hash : Option Text → Text → Text
  row_hash prev body = p.sha256 (hash_or_zeros prev ++ (b'|' ∷ body))
