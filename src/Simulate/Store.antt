-- ===== src/Simulate/Store.antt =====
-- The fact store of a simulation: `buildStore` of internal/simulate/simulate.go. The poll interval
-- of a source is a parameter.
use canarium.Common.{
  String, List, [], ◌∷◌, Option, none, some, is_some, ◌⊎◌, inl, inr, if◌then◌else◌,
}
use canarium.Common.Int.{ℤ}
use canarium.Common.Dict.{Dict, lookup, insert}
use canarium.Facts.Types.{
  Value, float64, int, int64, truth, texts, anys, is_nil_value, FactDeclaration,
}
use canarium.Facts.Store.{Store, new_store, register_source}
use canarium.Simulate.Timeline.{TimelineEvent, split_fact_key}

abbrev pub fact_type_of : Value → String
fact_type_of (truth _) = "bool"
fact_type_of (float64 _) = "number"
fact_type_of (int _) = "number"
fact_type_of (int64 _) = "number"
fact_type_of (anys _) = "set"
fact_type_of (texts _) = "set"
fact_type_of _ = "string"

-- A source's poll interval and its declarations.
pub record SourceDecl : Type 0 where
  pub interval : ℤ
  pub entries : Dict FactDeclaration

abbrev pub declaration : String → String → FactDeclaration
declaration name type = record {
  name = name;
  type = type;
  range = [];
  values = [];
  description = "";
  unit = "";
}

-- A silence marker only declares a fact that is not yet there.
unfoldable pub declare : String → Value → Dict FactDeclaration → Dict FactDeclaration
declare name v entries =
    if is_nil_value v
    then (if is_some (lookup name entries)
        then entries
        else insert name (declaration name "string") entries)
    else insert name (declaration name (fact_type_of v)) entries

abbrev pub decl_or_new : ℤ → Option SourceDecl → SourceDecl
decl_or_new interval none = record { interval = interval; entries = [] }
decl_or_new interval (some d) = d

unfoldable pub declare_event :
    (String → ℤ) → String → String → Value → Dict SourceDecl → Dict SourceDecl
unfolding declare
declare_event poll_interval source name v sources =
    let d = decl_or_new (poll_interval source) (lookup source sources) in
    insert source (record d { entries = declare name v d.entries }) sources

-- The loop over the events; the left is the key that is not qualified.
unfoldable pub declare_events :
    (String → ℤ) → List TimelineEvent → Dict SourceDecl → String ⊎ Dict SourceDecl
unfolding declare_event split_fact_key
declare_events poll_interval [] sources = inr sources
declare_events poll_interval (e ∷ es) sources = elim (split_fact_key e.fact) [
  | none ↦ inl e.fact
  | some (source, name) ↦
      declare_events poll_interval es (declare_event poll_interval source name e.value sources)
]

unfoldable pub entries_of : Dict FactDeclaration → List FactDeclaration
entries_of [] = []
entries_of ((_, d) ∷ rows) = d ∷ entries_of rows

unfoldable pub register_sources : Dict SourceDecl → Store → Store
unfolding entries_of register_source
register_sources [] s = s
register_sources ((source, d) ∷ rows) s =
    register_sources rows (register_source source d.interval (entries_of d.entries) s)

unfoldable pub registered : String ⊎ Dict SourceDecl → String ⊎ Store
unfolding register_sources new_store
registered (inl key) = inl key
registered (inr sources) = inr (register_sources sources new_store)

unfoldable pub build_store : (String → ℤ) → List TimelineEvent → String ⊎ Store
unfolding declare_events registered
build_store poll_interval events = registered (declare_events poll_interval events [])
