-- ===== src/AuditChain/Platform.antt =====
-- What the audit chain uses and does not implement: SHA-256 of node:crypto, the Unicode, JSON and
-- Date built-ins of the language, and the column types of Postgres. A `Platform` is the functions,
-- and `Laws` is the documented behaviour that the theorems rely on.
use vigil_apex_f.Common.{ℕ, ◌≡◌, ◌≢◌, Option, Text, All, length, text_eq, false}
use vigil_apex_f.AuditChain.Json.{Json, SameJson}

pub record Platform : Type 0 where
  -- createHash('sha256').update(text).digest('hex')
  pub sha256 : Text → Text
  -- text.normalize('NFC')
  pub nfc : Text → Text
  -- JSON.stringify of a string
  pub quote : Text → Text
  -- new Date(text).getTime(), `none` for NaN
  pub parse_date : Text → Option ℕ
  -- new Date(ms).toISOString()
  pub to_iso : ℕ → Text
  -- a JSONB column, written and read back
  pub jsonb : Json → Json
  -- a TIMESTAMPTZ column, written from a text and read back by toISOString()
  pub timestamptz : Text → Text

-- The separator of the canonical line, `|`.
abbrev pub IsPlain : Text → Type 0
IsPlain = All (λ c. c ≢ b'|')

pub record Laws (p : Platform) : Type 0 where
  pub sha256_length : (t : Text) → length (p.sha256 t) ≡ 64
  pub nfc_plain : (t : Text) → IsPlain t → IsPlain (p.nfc t)
  pub iso_plain : (ms : ℕ) → IsPlain (p.to_iso ms)
  -- Postgres keeps the values of an object and may reorder its keys.
  pub jsonb_same : (v : Json) → SameJson (p.jsonb v) v
  pub timestamptz_iso : (ms : ℕ) → p.timestamptz (p.to_iso ms) ≡ p.to_iso ms

-- Two texts with one digest.
abbrev pub Collision : Platform → Type 0
Collision p = (s : Text) × (t : Text) × (text_eq s t ≡ false) × (p.sha256 s ≡ p.sha256 t)
