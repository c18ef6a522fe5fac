-- ===== src/Scheduler/Registry.antt =====
-- The handlers by their job types: crates/activable-scheduler/src/registry.rs. The map is the list of
-- its handlers, whose keys are their job types; the debug assertion is left out, as in a release build.
use activable_cloud.Prelude.{
  ℕ, ◌≡◌, refl, Bool, List, [], ◌∷◌, map, Option, some, arith, Text, text_eq, text_eq_iff, is_empty,
  length, if◌then◌else◌,
}
use activable_cloud.Scheduler.Worker.{JobHandler, find_handler}

pub record HandlerRegistry : Type 0 where
  pub entries : List JobHandler

abbrev pub new_registry : HandlerRegistry
new_registry = record { entries = [] }

-- `insert`: the entry of the job type is replaced.
unfoldable pub insert : JobHandler → List JobHandler → List JobHandler
insert handler [] = handler ∷ []
insert handler (h ∷ rest) =
    let later = insert handler rest in
    if text_eq h.job_type handler.job_type then handler ∷ rest else h ∷ later

unfoldable pub register : JobHandler → HandlerRegistry → HandlerRegistry
unfolding insert
register handler registry = record { entries = insert handler registry.entries }

abbrev pub registered_types : HandlerRegistry → List Text
registered_types registry = map (λ (h : JobHandler). h.job_type) registry.entries

abbrev pub handlers : HandlerRegistry → List JobHandler
handlers registry = registry.entries

unfoldable pub get : Text → HandlerRegistry → Option JobHandler
get job_type registry = find_handler job_type registry.entries

abbrev pub len : HandlerRegistry → ℕ
len registry = length registry.entries

abbrev pub has_no_handler : HandlerRegistry → Bool
has_no_handler registry = is_empty registry.entries

find_handler-insert :
    (job_type : Text) (handler : JobHandler) (entries : List JobHandler)
    → find_handler job_type (insert handler entries)
      ≡ (if text_eq handler.job_type job_type then some handler else find_handler job_type entries)
unfolding insert
find_handler-insert job_type handler [] = refl
find_handler-insert job_type handler (h ∷ rest) = ground (
  arith,
  text_eq_iff h.job_type handler.job_type,
  text_eq_iff h.job_type job_type,
  text_eq_iff handler.job_type job_type,
  find_handler-insert job_type handler rest,
)

-- Looking a job type up after a registration gives the new handler for its own type, and for any other what was there.
pub get-register :
    (job_type : Text) (handler : JobHandler) (registry : HandlerRegistry)
    → get job_type (register handler registry)
      ≡ (if text_eq handler.job_type job_type then some handler else get job_type registry)
unfolding get register
get-register job_type handler registry = find_handler-insert job_type handler registry.entries
