-- ===== src/Tests/Registry.antt =====
-- A registry as the list of its names, and registrations on it.
use sv2_p2pool.Prelude.{
  ◌≡◌, refl, ◌↔◌, true, false, String, text_eq, List, [], ◌∷◌, ◌==◌, if◌then◌else◌,
}
use sv2_p2pool.Prelude.Flow.{Flow, next, exit}
use sv2_p2pool.Metrics.Collectors.{Collector}
use sv2_p2pool.Metrics.Names.{metric_names, taken, absent}
use sv2_p2pool.Metrics.Succeeds.{IsPrometheus, Registers, register_iff}

abbrev create : Collector → Flow String Collector
create c = if c.help == "" then exit "empty help string" else next c

abbrev register_collector : Collector → List String → Flow String (List String)
register_collector c names = if taken c.name names then exit "AlreadyReg" else next (c.name ∷ names)

abbrev as_names : List String → List String
as_names names = names

registry-IsPrometheus : IsPrometheus create register_collector as_names
registry-IsPrometheus = record {
  accepts = λ c name_known help_given. rw (help_given) refl;
  takes = λ c names free. (c.name ∷ names, rw (free) refl, refl);
  refuses = λ c names found. ("AlreadyReg", rw (found) refl);
}

register_iff_example :
    Registers create register_collector as_names ("up" ∷ [])
    ↔ (absent metric_names (as_names ("up" ∷ [])) ≡ true)
register_iff_example =
    register_iff create register_collector as_names registry-IsPrometheus ("up" ∷ [])

is_absent : absent metric_names ("up" ∷ []) ≡ true
is_absent = refl

is_refused : absent metric_names ("up" ∷ "sv2_p2pool_engine_blocks_submitted_total" ∷ []) ≡ false
is_refused = refl
