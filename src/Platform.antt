-- ===== src/Platform.antt =====
-- What the backend takes from Python's runtime: identifiers, digests, times and JSON values.
-- `uuid.uuid5`, `hashlib.sha256` and `repr` are parameters; nothing is assumed of them here.
use ot_soc_fusion_x.Base.{ℕ, String, Text, List, Bool, Option, none, some}

-- A `uuid.UUID`, as the text that `str` gives.
abbrev pub Uuid : Type 0
Uuid = String

-- A SHA-256 digest in hexadecimal.
abbrev pub Sha256 : Type 0
Sha256 = String

-- A timezone-aware `datetime` as the microseconds since 0001-01-01T00:00:00Z, the first one.
abbrev pub Datetime : Type 0
Datetime = ℕ

-- The values that the program puts in a JSON document of details.
pub data Value : Type 0 where
  null : Value
  str : String → Value
  plain : Text → Value
  num : ℕ → Value
  flag : Bool → Value
  texts : List String → Value

-- changed_at or datetime.now(UTC)
abbrev pub or_now : Datetime → Option Datetime → Datetime
or_now clock none = clock
or_now clock (some t) = t

abbrev pub Details : Type 0
Details = List (String × Value)

pub record Platform : Type 0 where
  -- uuid.uuid5(namespace, name)
  pub uuid5 : Uuid → String → Uuid
  -- hashlib.sha256(text.encode("utf-8")).hexdigest()
  pub sha256_hex : Text → Sha256
  -- moment.isoformat()
  pub isoformat : Datetime → String
  -- repr(items)
  pub repr_items : Details → Text
