-- ===== src/Facts/Types.antt =====
-- internal/facts/types.go: qualities, fact types, values and the three-valued logic.
use canarium.Common.{ℕ, String, Bool, true, false, ◌||◌, List, same, if◌then◌else◌}
use canarium.Common.Int.{ℤ}

pub data Quality : Type 0 where
  unknown stale good : Quality

unfoldable pub quality_text : Quality → String
quality_text good = "good"
quality_text stale = "stale"
quality_text unknown = "unknown"

pub data FactType : Type 0 where
  number percent duration enum set bool string : FactType

unfoldable pub fact_type_text : FactType → String
fact_type_text number = "number"
fact_type_text percent = "percent"
fact_type_text duration = "duration"
fact_type_text enum = "enum"
fact_type_text set = "set"
fact_type_text bool = "bool"
fact_type_text string = "string"

unfoldable pub parse_fact_type : String → FactType
parse_fact_type s =
    if same s "number"
    then number
    else if same s "percent"
    then percent
    else if same s "duration"
    then duration
    else if same s "enum"
    then enum
    else if same s "set"
    then set
    else if same s "bool"
    then bool
    else string

-- The dynamic values that `any` carries. A `float64` and a `float32` are their bits; `other` is
-- any type that the program does not tell apart, with its rendering under `%v`.
mutual
  pub data Value : Type 0 where
    nil : Value
    float64 float32 : ℕ → Value
    int int32 int64 : ℤ → Value
    truth : Bool → Value
    text : String → Value
    texts : List String → Value
    anys : Values → Value
    other : String → Value

  pub data Values : Type 0 where
    none_left : Values
    item : Value → Values → Values

abbrev pub is_nil_value : Value → Bool
is_nil_value nil = true
is_nil_value _ = false

pub record FactDeclaration : Type 0 where
  pub name : String
  pub type : String
  pub range : List ℕ
  pub values : List String
  pub description : String
  pub unit : String

-- `updated_at` is 0 for Go's zero time.
pub record Fact : Type 0 where
  pub key : String
  pub value : Value
  pub type : FactType
  pub quality : Quality
  pub updated_at : ℕ
  pub source : String

-- `Fact.Set`
unfoldable pub set_fact : Fact → Value → ℕ → Fact
set_fact f v t = record f { value = v; updated_at = t; quality = good }

-- `Fact.SetQuality`
unfoldable pub set_quality : Fact → Quality → Fact
set_quality f q = record f { quality = q }

pub data Trilean : Type 0 where
  unavailable definite_false definite_true : Trilean

abbrev pub is_false : Trilean → Bool
is_false definite_false = true
is_false _ = false

abbrev pub is_true : Trilean → Bool
is_true definite_true = true
is_true _ = false

abbrev pub is_unavailable : Trilean → Bool
is_unavailable unavailable = true
is_unavailable _ = false

unfoldable pub trilean_text : Trilean → String
trilean_text definite_true = "true"
trilean_text definite_false = "false"
trilean_text unavailable = "unavailable"

unfoldable pub and : Trilean → Trilean → Trilean
and a b =
    if is_false a || is_false b
    then definite_false
    else if is_unavailable a || is_unavailable b
    then unavailable
    else definite_true

unfoldable pub or : Trilean → Trilean → Trilean
or a b =
    if is_true a || is_true b
    then definite_true
    else if is_unavailable a || is_unavailable b
    then unavailable
    else definite_false

unfoldable pub negate : Trilean → Trilean
negate definite_true = definite_false
negate definite_false = definite_true
negate unavailable = unavailable

abbrev pub bool_to_trilean : Bool → Trilean
bool_to_trilean true = definite_true
bool_to_trilean false = definite_false
