-- ===== src/Scripts.antt =====
-- services/rate_limiter/script_loader.py and services/script_service.py: the Lua scripts that are
-- registered with Redis at the start, and again on request. The files and the answers of Redis are
-- parameters.
pub mod Reloaded
use distributed_rate_limiter.Errors.{
  Error, PyError, uncaught, runtime_error, script_registration_error,
}
use distributed_rate_limiter.Prelude.Dict
use distributed_rate_limiter.Prelude.Dict.{Dict}
use distributed_rate_limiter.Prelude.Sort.{sort}
use distributed_rate_limiter.Prelude.{
  String, ◌⧺◌, Bool, true, false, Option, none, some, List, [], ◌∷◌, map, if◌then◌else◌, string_eq,
  str_ltb, Result, ok, raise, ◌>>=◌,
}

-- A file `<stem>.lua` of the directory; `none` for a text that cannot be read (OSError).
pub record ScriptFile : Type 0 where
  pub stem : String
  pub text : Option String

-- `_script_cache`: the scripts of the process by name, each with its text.
abbrev pub ScriptCache : Type 0
ScriptCache = Dict String String

-- `sorted` compares the paths, which differ in the file's name only.
abbrev pub path_lt : ScriptFile → ScriptFile → Bool
path_lt f g = str_ltb (f.stem ⧺ ".lua") (g.stem ⧺ ".lua")

module _ (accepts : String → Bool) where
  -- `SCRIPT LOAD` of the text of a file: `none` for a RedisError or an OSError.
  unfoldable pub load_text : Option String → Option String
  load_text none = none
  load_text (some text) = if accepts text then some text else none

  -- The loop of `register_all_scripts`: the cache as it leaves it, and the names or what it raises.
  unfoldable pub register_scripts :
      List ScriptFile → ScriptCache → ScriptCache × Result Error (List String)
  unfolding load_text
  register_scripts [] cache = (cache, ok [])
  register_scripts (f ∷ files) cache = elim (load_text f.text) [
    | none ↦ (cache, raise (script_registration_error f.stem))
    | some text ↦
        let (cache', names) = register_scripts files (Dict.insert f.stem text cache) in
        (cache', names >>= λ rest. ok (f.stem ∷ rest))
  ]

  unfoldable pub register_all_scripts :
      List ScriptFile → ScriptCache → ScriptCache × Result Error (List String)
  unfolding register_scripts
  register_all_scripts files = register_scripts (sort path_lt files)

  -- `flush_and_reregister_scripts`, which `ScriptService.reload_scripts` calls; the first argument says
  -- whether Redis answers `SCRIPT FLUSH`.
  unfoldable pub flush_and_reregister_scripts :
      Bool → List ScriptFile → ScriptCache → ScriptCache × Result Error (List String)
  unfolding register_all_scripts
  flush_and_reregister_scripts false files cache = (cache, raise (uncaught PyError.redis_error))
  flush_and_reregister_scripts true files cache = register_all_scripts files []

-- `get_script`
unfoldable pub get_script : ScriptCache → String → Result Error String
get_script cache name = elim (Dict.get name cache) [
  | none ↦ raise (uncaught runtime_error)
  | some text ↦ ok text
]

-- The names that limiters find.
abbrev pub registered_names : ScriptCache → List String
registered_names = map (λ p. p.0)
