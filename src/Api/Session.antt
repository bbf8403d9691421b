-- ===== src/Api/Session.antt =====
-- Processes that start, initialise, crash and start again, over the same files. The kernel and
-- crashpad's signal handler are steps: on a crash the first chance handler runs if it was
-- registered, and the process ends.
use crashkit.Prelude.{
  ℕ, suc, ◌+◌, ◌≤◌, ◌≡◌, refl, sym, ap, ◌∙◌, subst, Bool, true, false, Option, none, some, arith,
  if◌then◌else◌, inl, inr, Bool-cases, bind-eq-some, some_cancel,
}
use crashkit.Prelude.Bytes.{Bytes, =b_refl}
use crashkit.Bridge.{CrashpadInfo, Crashpad, loaded}
use crashkit.Bridge.Dynamic.{native_set_annotation}
use crashkit.Bridge.Marker.{Files, first_chance_handler}
use crashkit.Api.{
  Api, Callback, InitCall, Result, marker_file, init, set_annotation, resolved, jstring,
}
use crashkit.Api.Guards.{InitDone, init-InitDone, fires}
use crashkit.Api.Init.{pending}

-- One application: its process, whether that is alive, and how often it crashed.
pub record App : Type 0 where
  pub api : Api
  pub alive : Bool
  pub crashes : ℕ

-- The files after the signal handlers have run.
unfoldable pub on_signal : (Bytes → Bool) → Api → Files
on_signal opens s =
    if s.bridge.first_chance then (first_chance_handler opens s.bridge s.files).1 else s.files

-- A new process: the flags and the globals are as they are when the library is loaded, or not.
abbrev pub start_process : CrashpadInfo → Bool → Bool → Api → Api
start_process info library_loaded linked s = record s {
  inited = false;
  library_loaded = library_loaded;
  linked = linked;
  bridge = loaded info;
}

fires_marker : (call : InitCall) (s : Api) → fires call s ≡ true → s.files (marker_file call) ≡ true
fires_marker call s h = pending_there call.config.on_crash _ (ground arith)
  where
    pending_there : (cb : Option Callback) (b : Bool) → pending cb b ≡ true → b ≡ true
    pending_there none b e = cc
    pending_there (some cb) b e = e

-- The marker after `init`.
marker_after :
    (deletes : Bytes → Bool) (call : InitCall) (s : Api) (r : Result × Api)
    → deletes (marker_file call) ≡ true
    → InitDone deletes call s r
    → r.1.files (marker_file call) ≡ (if fires call s then false else s.files (marker_file call))
marker_after deletes call s r d h = elim (Bool-cases (fires call s)) [
  | inl e ↦
      rw e (ap (λ f. f (marker_file call)) (rw e at h.files) ∙ rw (d, =b_refl (marker_file call)))
  | inr e ↦ rw e (ap (λ f. f (marker_file call)) (rw e at h.files))
]

-- A marker counts as a callback that is still to come.
abbrev pub outstanding : Bool → ℕ
outstanding b = if b then 1 else 0

outstanding_le : (b : Bool) → outstanding b ≤ 1
outstanding_le true = omega arith
outstanding_le false = omega arith

-- The callbacks that ran, and one for a marker that is there, are no more than the crashes.
pub record IsAccounted (m : Bytes) (a : App) : Type 0 where
  pub covered : a.api.invoked + outstanding (a.api.files m) ≤ a.crashes

covered_init :
    (invoked invoked' crashes : ℕ) (fired there there' : Bool)
    → invoked' ≡ (if fired then suc invoked else invoked)
    → there' ≡ (if fired then false else there)
    → (fired ≡ true → there ≡ true)
    → invoked + outstanding there ≤ crashes
    → invoked' + outstanding there' ≤ crashes
covered_init invoked invoked' crashes true there there' e f q w =
    rw (e, f) (omega (arith, subst (λ b. invoked + outstanding b ≤ crashes) (q refl) w))
covered_init invoked invoked' crashes false there there' e f q w = rw (e, f) w

init-IsAccounted :
    (m : Bytes) (deletes : Bytes → Bool) (a : App) (call : InitCall) (r : Result × Api)
    → deletes m ≡ true
    → marker_file call ≡ m
    → InitDone deletes call a.api r
    → IsAccounted m a
    → IsAccounted m (record a { api = r.1 })
init-IsAccounted m deletes a call r d e h w =
    let k =
      subst (λ x. r.1.files x ≡ (if fires call a.api then false else a.api.files x)) e
        (marker_after deletes call a.api r (subst (λ x. deletes x ≡ true) (sym e) d) h) in
    let q : fires call a.api ≡ true → a.api.files m ≡ true =
      λ f. subst (λ x. a.api.files x ≡ true) e (fires_marker call a.api f) in
    record { covered = covered_init _ _ _ (fires call a.api) _ _ h.invoked k q w.covered }

set_annotation_keeps :
    (key value : Bytes) (s t : Api)
    → set_annotation key value s ≡ some t
    → (t.invoked ≡ s.invoked) × (t.files ≡ s.files)
unfolding set_annotation
set_annotation_keeps key value s t h = elim (Bool-cases s.inited) [
  | inr e ↦
      subst {A = Api} (λ x. (x.invoked ≡ s.invoked) × (x.files ≡ s.files))
        (some_cancel {a = s} {b = t} (ground (arith, e, h))) (refl, refl)
  | inl e ↦
      let (b, f, g) =
        bind-eq-some
          (resolved s.linked (native_set_annotation (jstring key) (jstring value) s.bridge))
          (λ b. some (record s { bridge = b })) {b = t} (ground (arith, e, h)) in
      subst {A = Api} (λ x. (x.invoked ≡ s.invoked) × (x.files ≡ s.files)) (some_cancel g)
        (refl, refl)
]

-- The steps of an application whose marker file is `m`.
module _ (m : Bytes) (deletes : Bytes → Bool) where
  pub data Step : App → App → Type 0 where
    launch :
        (a : App) (info : CrashpadInfo) (library_loaded linked : Bool)
        → a.alive ≡ false
        → Step a (record a { api = start_process info library_loaded linked a.api; alive = true })
    initialises :
        (a : App) (c : Crashpad) (cmdline : Option Bytes) (call : InitCall) (r : Result × Api)
        → a.alive ≡ true
        → marker_file call ≡ m
        → init c deletes cmdline call a.api ≡ some r
        → Step a (record a { api = r.1 })
    annotates :
        (a : App) (key value : Bytes) (t : Api)
        → a.alive ≡ true
        → set_annotation key value a.api ≡ some t
        → Step a (record a { api = t })
    signals :
        (a : App) (opens : Bytes → Bool)
        → a.alive ≡ true
        → Step a (record a {
          api = record a.api { files = on_signal opens a.api };
          alive = false;
          crashes = suc a.crashes;
        })
    exits : (a : App) → a.alive ≡ true → Step a (record a { alive = false })

  pub data Reach (a : App) : App → Type 0 where
    here : Reach a a
    next : {b d : App} → Reach a b → Step b d → Reach a d

  Step-IsAccounted : {a b : App} → deletes m ≡ true → Step a b → IsAccounted m a → IsAccounted m b
  Step-IsAccounted d (launch a info l k e) w = record { covered = w.covered }
  Step-IsAccounted d (initialises a c cmdline call r e f h) w =
      init-IsAccounted m deletes a call r d f (init-InitDone c deletes cmdline call a.api r h) w
  Step-IsAccounted d (annotates a key value t e h) w =
      let (i, f) = set_annotation_keeps key value a.api t h in
      record { covered = rw (i, f) w.covered }
  Step-IsAccounted d (signals a opens e) w = record {
    covered = omega (arith, outstanding_le (on_signal opens a.api m), w.covered);
  }
  Step-IsAccounted d (exits a e) w = record { covered = w.covered }

  -- If the marker can be deleted, then whatever the processes of an application do, in any order,
  -- the callbacks that ran and a marker that is still there stay matched by crashes: `onCrash` runs
  -- at most once for each crash.
  pub Reach-IsAccounted :
      {a b : App} → deletes m ≡ true → IsAccounted m a → Reach a b → IsAccounted m b
  Reach-IsAccounted d w here = w
  Reach-IsAccounted d w (next r s) = Step-IsAccounted d s (Reach-IsAccounted d w r)
