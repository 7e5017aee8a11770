-- ===== src/Scripts/Reloaded.antt =====
-- What the process has of the scripts after a reload that ended, and after one that failed.
use distributed_rate_limiter.Errors.{Error, script_registration_error}
use distributed_rate_limiter.Scripts.{
  ScriptFile, ScriptCache, path_lt, load_text, register_scripts, register_all_scripts,
  flush_and_reregister_scripts, registered_names,
}
use mathlib.Core.List.{append-nil}
use distributed_rate_limiter.Prelude.Dict
use distributed_rate_limiter.Prelude.Dict.{get-insert}
use distributed_rate_limiter.Prelude.Sort.{sort, Distinct-map-sort, contains-map-sort}
use distributed_rate_limiter.Prelude.{
  String, ◌≡◌, refl, sym, ap, ◌∙◌, subst, Bool, true, false, Option, none, some, List, [], ◌∷◌,
  ◌++◌, map, ◌==◌, string_eq, if◌then◌else◌, beq_refl, inl, inr, All, contains, Distinct,
  Bool-cases, Option-cases, Result, ok, raise, ◌>>=◌, arith,
}

-- A file that Redis took stands in the cache under its name.
pub record IsLoaded (accepts : String → Bool) (cache : ScriptCache) (f : ScriptFile) : Type 0 where
  pub text : String
  pub read : f.text ≡ some text
  pub accepted : accepts text ≡ true
  pub cached : Dict.get f.stem cache ≡ some text

abbrev pub stems : List ScriptFile → List String
stems = map (λ f. f.stem)

-- What is returned or raised, where the files that are left begin with one that is refused.
abbrev pub ending : List ScriptFile → List ScriptFile → Result Error (List String)
ending taken [] = ok (stems taken)
ending taken (f ∷ rest) = raise (script_registration_error f.stem)

abbrev pub BeginsRefused : (String → Bool) → List ScriptFile → Type 0
BeginsRefused accepts [] = Unit
BeginsRefused accepts (f ∷ rest) = load_text accepts f.text ≡ none

-- The files up to one that Redis or the disk refuses are registered, and the names are those of the files.
pub record IsRegistered (accepts : String → Bool) (files : List ScriptFile) (before : ScriptCache)
    (out : ScriptCache × Result Error (List String)) : Type 0 where
  pub taken : List ScriptFile
  pub rest : List ScriptFile
  pub divided : files ≡ taken ++ rest
  pub loaded : All (IsLoaded accepts out.0) taken
  pub refused : BeginsRefused accepts rest
  pub others :
      (name : String)
      → contains (stems taken) name ≡ false
      → Dict.get name out.0 ≡ Dict.get name before
  pub ended : out.1 ≡ ending taken rest

load_text-some :
    (accepts : String → Bool) (o : Option String) (text : String)
    → load_text accepts o ≡ some text
    → (o ≡ some text) × (accepts text ≡ true)
unfolding load_text
load_text-some accepts none text h = cc
load_text-some accepts (some t) text h = ground arith

abbrev add_name :
    String → ScriptCache × Result Error (List String) → ScriptCache × Result Error (List String)
add_name stem out = (out.0, out.1 >>= λ rest. ok (stem ∷ rest))

ending-cons :
    (f : ScriptFile) (taken rest : List ScriptFile)
    → (ending taken rest >>= λ names. ok (f.stem ∷ names)) ≡ ending (f ∷ taken) rest
ending-cons f taken [] = refl
ending-cons f taken (g ∷ rest) = refl

contains-stems_split :
    (taken rest : List ScriptFile) (name : String)
    → contains (stems (taken ++ rest)) name ≡ false
    → contains (stems taken) name ≡ false
contains-stems_split [] rest name h = refl
contains-stems_split (f ∷ taken) rest name h = ground (arith, contains-stems_split taken rest name)

IsRegistered-cons :
    (accepts : String → Bool) (f : ScriptFile) (files : List ScriptFile) (before : ScriptCache)
    (text : String)
    → load_text accepts f.text ≡ some text
    → Distinct (stems (f ∷ files))
    → (out : ScriptCache × Result Error (List String))
    → IsRegistered accepts files (Dict.insert f.stem text before) out
    → IsRegistered accepts (f ∷ files) before (add_name f.stem out)
IsRegistered-cons accepts f files before text e d out r =
    let (read, accepted) = load_text-some accepts f.text text e in
    let apart : contains (stems r.taken) f.stem ≡ false =
      contains-stems_split r.taken r.rest f.stem
        (subst (λ fs. contains (stems fs) f.stem ≡ false) r.divided d.0) in
    record {
      taken = f ∷ r.taken;
      rest = r.rest;
      divided = ap (λ fs. f ∷ fs) r.divided;
      loaded = (
        record {
          text = text;
          read = read;
          accepted = accepted;
          cached =
              r.others f.stem apart
              ∙ (get-insert f.stem f.stem text before
                  ∙ ap (λ b. if b then some text else Dict.get f.stem before) (beq_refl f.stem));
        },
        r.loaded,
      );
      refused = r.refused;
      others = λ name h.
          r.others name (ground arith) ∙ (get-insert f.stem name text before ∙ ground arith);
      ended = ap (λ o. o >>= λ names. ok (f.stem ∷ names)) r.ended ∙ ending-cons f r.taken r.rest;
    }

register_scripts-IsRegistered :
    (accepts : String → Bool) (files : List ScriptFile) (before : ScriptCache)
    → Distinct (stems files)
    → IsRegistered accepts files before (register_scripts accepts files before)
unfolding register_scripts
register_scripts-IsRegistered accepts [] before d = record {
  taken = [];
  rest = [];
  divided = refl;
  loaded = tt;
  refused = tt;
  others = λ name h. refl;
  ended = refl;
}
register_scripts-IsRegistered accepts (f ∷ files) before d =
    elim (Option-cases (load_text accepts f.text)) [
      | inl e ↦
          rw (e, register_scripts)
            (record {
              taken = [];
              rest = f ∷ files;
              divided = refl;
              loaded = tt;
              refused = e;
              others = λ name h. refl;
              ended = refl;
            })
      | inr (text, e) ↦
          rw (e, register_scripts)
            (IsRegistered-cons accepts f files before text e d
              (register_scripts accepts files (Dict.insert f.stem text before))
              (register_scripts-IsRegistered accepts files (Dict.insert f.stem text before) d.1))
    ]

-- How a reload leaves the scripts, by whether Redis answers the flush.
abbrev pub Reloads :
    (String → Bool)
    → List ScriptFile
    → ScriptCache
    → Bool
    → ScriptCache × Result Error (List String)
    → Type 0
Reloads accepts files before true out = IsRegistered accepts (sort path_lt files) [] out
Reloads accepts files before false out = out.0 ≡ before

-- Where Redis does not answer the flush, a reload keeps the scripts that there were. Where it does, none of
-- these is left: for files of different names, those that stand in the order of their paths before the first
-- one that Redis or the disk refuses are registered under their names, each with its text, and no other name
-- is. Where one is refused its name is in the error, and otherwise the names of all are returned, in order.
pub flush_and_reregister_scripts-Reloads :
    (accepts : String → Bool) (files : List ScriptFile) (before : ScriptCache) (flushed : Bool)
    → Distinct (stems files)
    → Reloads accepts files before flushed
        (flush_and_reregister_scripts accepts flushed files before)
unfolding flush_and_reregister_scripts
flush_and_reregister_scripts-Reloads accepts files before true d =
    register_scripts-IsRegistered accepts (sort path_lt files) []
      (Distinct-map-sort path_lt (λ f. f.stem) files d)
flush_and_reregister_scripts-Reloads accepts files before false d = refl

contains-registered :
    (name text : String) (cache : ScriptCache)
    → Dict.get name cache ≡ some text
    → contains (registered_names cache) name ≡ true
unfolding Dict.get
contains-registered name text [] h = cc
contains-registered name text ((k, v) ∷ cache) h =
    ground (arith, contains-registered name text cache)

-- Every file stands under its name where nothing was refused.
pub register_all_scripts-registered :
    (accepts : String → Bool) (files : List ScriptFile) (before cache : ScriptCache)
    (names : List String)
    → Distinct (stems files)
    → register_all_scripts accepts files before ≡ (cache, ok names)
    → (name : String) → contains (stems files) name ≡ true
    → contains (registered_names cache) name ≡ true
unfolding register_all_scripts
register_all_scripts-registered accepts files before cache names d h name k =
    let r = subst (IsRegistered accepts (sort path_lt files) before) h (
      register_scripts-IsRegistered accepts (sort path_lt files) before
        (Distinct-map-sort path_lt (λ f. f.stem) files d)) in
    let taken : contains (stems r.taken) name ≡ true = all_taken r.taken r.rest r.divided r.ended in
    found r.taken r.loaded taken
  where
    all_taken :
        (taken rest : List ScriptFile)
        → sort path_lt files ≡ taken ++ rest
        → ◌≡◌ {A = Result Error (List String)} (ok names) (ending taken rest)
        → contains (stems taken) name ≡ true
    all_taken taken [] e q =
        ap (λ fs. contains (stems fs) name) (sym (append-nil taken))
        ∙ (ap (λ fs. contains (stems fs) name) (sym e)
            ∙ (contains-map-sort path_lt (λ f. f.stem) files name ∙ k))
    all_taken taken (f ∷ rest) e q = cc

    found :
        (taken : List ScriptFile)
        → All (IsLoaded accepts cache) taken
        → contains (stems taken) name ≡ true
        → contains (registered_names cache) name ≡ true
    found [] l c = cc
    found (f ∷ taken) l c = elim (Bool-cases (f.stem == name)) [
      | inl here ↦
          subst (λ n. contains (registered_names cache) n ≡ true)
            ((string_eq.equals_iff f.stem name).0 here)
            (contains-registered f.stem l.0.text cache l.0.cached)
      | inr there ↦ found taken l.1 (ground arith)
    ]
