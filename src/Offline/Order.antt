-- ===== src/Offline/Order.antt =====
-- The order of the files of a run does not matter: src/offline.c says so.
use ntprof.Prelude.{
  ℕ, ◌≡◌, refl, sym, ap, ◌∙◌, false, not, ◌&&◌, Bool-cases, inl, inr, Option, some, is_some, List,
  [], ◌∷◌, ◌++◌,
}
use mathlib.Core.Option
use ntprof.Record.{HostRec, TgtRec}
use ntprof.Offline.{
  RunState, run_new, on_host, on_target, has_host_role, keep_header, load_file, load_files,
  join_run, load_run,
}
use ntprof.Stats.{Stats}
use ntprof.Trace.Layout.{FileHeader, header_bytes}
use ntprof.Trace.Fields.{header_of-header_bytes}
use ntprof.Trace.Files.{IsGood, read_file-versions}
use ntprof.Trace.Reader.{File}
use ntprof.Trace.Records.{Rec, host_rec, tgt_rec, AllFitting, all_bytes, visit, visit_one}

-- The records of a file from the initiator, and of one from the target.
abbrev pub AllHosts : List Rec → Type 0
AllHosts [] = Unit
AllHosts (host_rec r ∷ rs) = AllHosts rs
AllHosts (tgt_rec r ∷ rs) = ⊥

abbrev pub AllTargets : List Rec → Type 0
AllTargets [] = Unit
AllTargets (host_rec r ∷ rs) = ⊥
AllTargets (tgt_rec r ∷ rs) = AllTargets rs

-- A file with a header and records.
abbrev pub written : FileHeader → List Rec → Option File
written h rs = some (record { bytes = header_bytes h ++ all_bytes h.version rs; broken = false })

abbrev run : ℕ → List Rec → RunState → RunState
run version rs r = visit on_host on_target version rs r

load_file-written :
    (h : FileHeader) (rs : List Rec) (r : RunState)
    → IsGood h
    → AllFitting rs
    → load_file (written h rs) r ≡ some (keep_header h (run h.version rs r))
unfolding load_file
load_file-written h rs r ok f =
    rw
      (
        read_file-versions on_host on_target h ok rs r f,
        header_of-header_bytes h ok.fits (all_bytes h.version rs),
      )
      refl

targets-on_host :
    (v : ℕ) (ts : List Rec) (h : HostRec) (r : RunState)
    → AllTargets ts
    → run v ts (on_host h r) ≡ on_host h (run v ts r)
unfolding visit visit_one on_host on_target
targets-on_host v [] h r a = refl
targets-on_host v (host_rec t ∷ ts) h r a = absurd a
targets-on_host v (tgt_rec t ∷ ts) h r a = targets-on_host v ts h _ a

hosts-targets :
    (v w : ℕ) (hs ts : List Rec) (r : RunState)
    → AllHosts hs
    → AllTargets ts
    → run v hs (run w ts r) ≡ run w ts (run v hs r)
unfolding visit visit_one
hosts-targets v w [] ts r a b = refl
hosts-targets v w (tgt_rec h ∷ hs) ts r a b = absurd a
hosts-targets v w (host_rec h ∷ hs) ts r a b =
    ap (run v hs) (sym (targets-on_host w ts _ r b)) ∙ hosts-targets v w hs ts _ a b

keep_header-on_target :
    (h : FileHeader) (t : TgtRec) (r : RunState)
    → keep_header h (on_target t r) ≡ on_target t (keep_header h r)
unfolding keep_header on_target
keep_header-on_target h t r = elim (Bool-cases (has_host_role h && not (is_some r.host_hdr))) [
  | inl e ↦ rw (e, keep_header) refl
  | inr e ↦ rw (e, keep_header) refl
]

keep_header-targets :
    (v : ℕ) (h : FileHeader) (ts : List Rec) (r : RunState)
    → AllTargets ts
    → keep_header h (run v ts r) ≡ run v ts (keep_header h r)
unfolding visit visit_one
keep_header-targets v h [] r a = refl
keep_header-targets v h (host_rec t ∷ ts) r a = absurd a
keep_header-targets v h (tgt_rec t ∷ ts) r a =
    keep_header-targets v h ts _ a ∙ ap (run v ts) (keep_header-on_target h _ r)

keep_header-target : (h : FileHeader) (r : RunState) → has_host_role h ≡ false → keep_header h r ≡ r
unfolding keep_header
keep_header-target h r e = rw (e, keep_header) refl

load_two :
    (f g : Option File) {r₁ r₂ : RunState} (r : RunState)
    → load_file f r ≡ some r₁
    → load_file g r₁ ≡ some r₂
    → load_files (f ∷ g ∷ []) r ≡ some r₂
unfolding load_files
load_two f g r a b = rw (a, load_files, b) refl

-- For a readable file with host records and a readable file with target records, whose fields fit
-- their widths, where the role of the second is not the host's, load_run gives the same run and the
-- same statistics in both orders of the two files.
pub load_run-order :
    (h t : FileHeader) (hs ts : List Rec) (stats : Stats)
    → IsGood h × IsGood t
    → AllFitting hs × AllFitting ts
    → AllHosts hs
    → AllTargets ts
    → has_host_role t ≡ false
    → load_run (written h hs ∷ written t ts ∷ []) stats
      ≡ load_run (written t ts ∷ written h hs ∷ []) stats
unfolding load_run
load_run-order h t hs ts stats (good, good') (fits, fits') a b role =
    let r = run h.version hs run_new in
    let r' = run t.version ts run_new in
    let hosts_first =
      load_two (written h hs) (written t ts) run_new (load_file-written h hs run_new good fits)
        (load_file-written t ts (keep_header h r) good' fits')
      ∙ ap some (keep_header-target t (run t.version ts (keep_header h r)) role) in
    let targets_first =
      load_two (written t ts) (written h hs) run_new (load_file-written t ts run_new good' fits')
        (load_file-written h hs (keep_header t r') good fits)
      ∙ ap (λ x. some (keep_header h (run h.version hs x))) (keep_header-target t r' role)
      ∙ ap (λ x. some (keep_header h x)) (hosts-targets h.version t.version hs ts run_new a b)
      ∙ ap some (keep_header-targets t.version h ts r b) in
    ap (Option.map (join_run stats)) (hosts_first ∙ sym targets_first)
