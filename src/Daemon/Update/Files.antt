-- ===== src/Daemon/Update/Files.antt =====
-- ftp-daemon/soltrace_daemon.py: what `_self_update` leaves of the installed files.
use soltrace.Base.{
  ap, All-append, All-map, subst, Bool, true, false, not, ◌&&◌, Option, none, some, some-injective,
  List, [], ◌∷◌, ◌++◌, ◌≡◌, refl, ◌⊎◌, inl, inr, Bool-cases, Option-cases, sym, ◌∙◌, append-nil,
  append_assoc, All,
}
use soltrace.Auth.Text.{Text, is_empty}
use soltrace.Daemon.Update.{
  after_pip, after_install, after_download, requirements_txt, soltrace_daemon_py, soltrace_bulk_py,
  File, Write, written, broke, Outside, Disk, Process, files, is_python, is_same, set_file, stage,
  validate_update_url, rstrip_slashes, download, install, clean_up, self_update,
}

requirements_txt_same : (g : File) → is_same requirements_txt g ≡ true → requirements_txt ≡ g
requirements_txt_same requirements_txt h = refl
requirements_txt_same soltrace_daemon_py h = cc h
requirements_txt_same soltrace_bulk_py h = cc h

soltrace_daemon_py_same : (g : File) → is_same soltrace_daemon_py g ≡ true → soltrace_daemon_py ≡ g
soltrace_daemon_py_same requirements_txt h = cc h
soltrace_daemon_py_same soltrace_daemon_py h = refl
soltrace_daemon_py_same soltrace_bulk_py h = cc h

soltrace_bulk_py_same : (g : File) → is_same soltrace_bulk_py g ≡ true → soltrace_bulk_py ≡ g
soltrace_bulk_py_same requirements_txt h = cc h
soltrace_bulk_py_same soltrace_daemon_py h = cc h
soltrace_bulk_py_same soltrace_bulk_py h = refl

is_same_sound : (f g : File) → is_same f g ≡ true → f ≡ g
is_same_sound requirements_txt = requirements_txt_same
is_same_sound soltrace_daemon_py = soltrace_daemon_py_same
is_same_sound soltrace_bulk_py = soltrace_bulk_py_same

is_same_refl : (f : File) → is_same f f ≡ true
is_same_refl requirements_txt = refl
is_same_refl soltrace_daemon_py = refl
is_same_refl soltrace_bulk_py = refl

Write-cases : {C : Type 0} (w : Write C) → (w ≡ written) ⊎ ((left : Option C) × (w ≡ broke left))
Write-cases written = inl refl
Write-cases (broke left) = inr (left, refl)

module _ {C : Type 0} (out : Outside C) where
  -- content that was downloaded for a file, and parses if it is a program
  abbrev pub Checked : File → C → Type 0
  Checked file c = (out.fetch file ≡ some c) × ((is_python file && not (out.parses c)) ≡ false)

  -- what the temporary file holds, if there is one, is such content
  abbrev IsStaged : Disk C → File → Type 0
  IsStaged d file = (c : C) → d.staged file ≡ some c → Checked file c

  set_file_case :
      (P : Option C → Type 0) (f g : File) (v : Option C) (old : File → Option C)
      → (f ≡ g → P v)
      → P (old g)
      → P (set_file f v old g)
  set_file_case P f g v old new kept = elim (Bool-cases (is_same f g)) [
    | inl e ↦ rw e (new (is_same_sound f g e))
    | inr e ↦ rw e kept
  ]

  clean_up-installed :
      (tmps : List File) (d : Disk C) (file : File)
      → (clean_up out tmps d).installed file ≡ d.installed file
  unfolding clean_up
  clean_up-installed [] d file = refl
  clean_up-installed (x ∷ xs) d file = elim (Bool-cases (out.unlinks x)) [
    | inl e ↦ rw (e, clean_up) (clean_up-installed xs _ file)
    | inr e ↦ rw (e, clean_up) (clean_up-installed xs d file)
  ]

  -- The installed files of a disk are as before, or checked.
  abbrev pub OldOrChecked : Disk C → (File → Option C) → Type 0
  OldOrChecked before after =
      (file : File)
      → (after file ≡ before.installed file) ⊎ ((c : C) × Checked file c × (after file ≡ some c))

  install-OldOrChecked :
      (fs : List File) (before d : Disk C)
      → All (IsStaged d) fs
      → OldOrChecked before d.installed
      → OldOrChecked before (install out fs d).1.installed
  unfolding install
  install-OldOrChecked [] before d staged old = old
  install-OldOrChecked (f ∷ fs) before d staged old = elim (Option-cases (d.staged f)) [
    | inl e ↦ rw e old
    | inr (c, e) ↦ elim (Bool-cases (out.renames f)) [
      | inr r ↦ rw (e, r) old
      | inl r ↦
          rw (e, r)
            (install-OldOrChecked fs before _
              (All-map (IsStaged d) _ fs
                (λ g s.
                  set_file_case (λ v. (x : C) → v ≡ some x → Checked g x) f g none d.staged
                    (λ p x q. cc q) s)
                staged.1)
              (λ g.
                set_file_case
                  (λ v. (v ≡ before.installed g) ⊎ ((x : C) × Checked g x × (v ≡ some x))) f g
                  (some c) d.installed
                  (λ p. inr (c, subst (λ h. Checked h c) p (staged.0 c e), refl)) (old g)))
    ]
  ]

  -- The temporary file of `file` is there, and holds content that was checked.
  abbrev IsReady : Disk C → File → Type 0
  IsReady d file = (c : C) × (d.staged file ≡ some c) × Checked file c

  IsReady-IsStaged : (d : Disk C) (file : File) → IsReady d file → IsStaged d file
  IsReady-IsStaged d file (c, e, h) x p = subst (Checked file) (some-injective c x (sym e ∙ p)) h

  stage-IsReady :
      (g : File) (c : C) (d : Disk C) (tmps : List File)
      → Checked g c
      → All (IsReady d) tmps
      → All (IsReady (stage g (some c) d)) (tmps ++ g ∷ [])
  stage-IsReady g c d tmps h ready =
      All-append _ tmps (g ∷ [])
        (All-map (IsReady d) _ tmps
          (λ f r.
            set_file_case (λ v. (x : C) × (v ≡ some x) × Checked f x) g f (some c) d.staged
              (λ p. (c, refl, subst (λ k. Checked k c) p h)) r)
          ready)
        ((c, rw (is_same_refl g) refl, h), tt)

  -- What the downloads leave: the installed files, and checked temporary ones if they ended.
  abbrev Downloaded : List File → List File → Disk C → Bool × List File × Disk C → Type 0
  Downloaded fs tmps d r =
      (r.2.installed ≡ d.installed) × (r.0 ≡ true → (r.1 ≡ tmps ++ fs) × All (IsReady r.2) r.1)

  download-Downloaded :
      (fs tmps : List File) (d : Disk C)
      → All (IsReady d) tmps
      → Downloaded fs tmps d (download out fs tmps d)
  unfolding download
  download-Downloaded [] tmps d ready = (refl, λ e. (sym (append-nil tmps), ready))
  download-Downloaded (f ∷ fs) tmps d ready = elim (Option-cases (out.fetch f)) [
    | inl e ↦ rw e (refl, λ q. cc q)
    | inr (c, e) ↦ elim (Bool-cases (is_python f && not (out.parses c))) [
      | inl b ↦ rw (e, b) (refl, λ q. cc q)
      | inr b ↦ elim (Write-cases (out.write_tmp f c)) [
        | inr (left, w) ↦ rw (e, b, w) (refl, λ q. cc q)
        | inl w ↦
            let (i, r) =
              download-Downloaded fs (tmps ++ f ∷ []) _ (stage-IsReady f c d tmps (e, b) ready) in
            rw (e, b, w) (i, λ q. ((r q).0 ∙ append_assoc tmps (f ∷ []) fs, (r q).1))
      ]
    ]
  ]

  files_ready : (d : Disk C) → Downloaded files [] d (download out files [] d)
  files_ready d = download-Downloaded files [] d tt

  after_pip-installed :
      (b : Bool) (tmps : List File) (d : Disk C) (p : Process) (file : File)
      → (after_pip out b tmps d p).0.installed file ≡ d.installed file
  after_pip-installed true tmps d p file = refl
  after_pip-installed false tmps d p file = clean_up-installed tmps d file

  after_install-installed :
      (tmps : List File) (r : Bool × Disk C) (p : Process) (file : File)
      → (after_install out tmps r p).0.installed file ≡ r.1.installed file
  after_install-installed tmps (false, d) p file = clean_up-installed tmps d file
  after_install-installed tmps (true, d) p file = after_pip-installed out.pip_runs tmps d p file

  after_download-OldOrChecked :
      (before : Disk C) (r : Bool × List File × Disk C) (p : Process)
      → Downloaded files [] before r
      → OldOrChecked before (after_download out r p).0.installed
  after_download-OldOrChecked before (false, tmps, d) p down file =
      inl (clean_up-installed tmps d file ∙ ap (λ i. i file) down.0)
  after_download-OldOrChecked before (true, tmps, d) p down file =
      rw (after_install-installed tmps (install out tmps d) p file) (
        install-OldOrChecked tmps before d
          (All-map (IsReady d) _ tmps (IsReady-IsStaged d) (down.1 refl).1)
          (λ g. inl (ap (λ i. i g) down.0)) file)

  -- Whatever fails in an update, renames included, each installed file is as it was or is the
  -- content that was downloaded for it, checked for its syntax if it is a program.
  pub self_update-OldOrChecked :
      (url : Text) (d : Disk C) (p : Process) → OldOrChecked d (self_update out url d p).0.installed
  unfolding self_update
  self_update-OldOrChecked url d p = elim (Bool-cases (is_empty (rstrip_slashes url))) [
    | inl e ↦ rw e (λ f. inl refl)
    | inr e ↦ elim (Bool-cases (validate_update_url out (rstrip_slashes url))) [
      | inr v ↦ rw (e, v) (λ f. inl refl)
      | inl v ↦ rw (e, v) (after_download-OldOrChecked d _ p (files_ready d))
    ]
  ]

  -- every file is as before and the process goes on, or every file is new
  abbrev pub AllOrNone : Disk C → Process → Disk C × Process → Type 0
  AllOrNone d p after =
      (((file : File) → after.0.installed file ≡ d.installed file) × (after.1 ≡ p))
      ⊎ ((file : File) → (c : C) × Checked file c × (after.0.installed file ≡ some c))

  module _ (renamed : (file : File) → out.renames file ≡ true) where
    install_all :
        (d : Disk C) (file : File)
        → All (IsReady d) files
        → (install out files d).1.installed file ≡ d.staged file
    unfolding install
    install_all d requirements_txt ((a, ea, _), ((b, eb, _), ((c, ec, _), _))) =
        rw
          (
            ea,
            renamed requirements_txt,
            eb,
            renamed soltrace_daemon_py,
            ec,
            renamed soltrace_bulk_py,
          )
          refl
    install_all d soltrace_daemon_py ((a, ea, _), ((b, eb, _), ((c, ec, _), _))) =
        rw
          (
            ea,
            renamed requirements_txt,
            eb,
            renamed soltrace_daemon_py,
            ec,
            renamed soltrace_bulk_py,
          )
          refl
    install_all d soltrace_bulk_py ((a, ea, _), ((b, eb, _), ((c, ec, _), _))) =
        rw
          (
            ea,
            renamed requirements_txt,
            eb,
            renamed soltrace_daemon_py,
            ec,
            renamed soltrace_bulk_py,
          )
          refl

    IsReady-at : (d : Disk C) (file : File) → All (IsReady d) files → IsReady d file
    IsReady-at d requirements_txt r = r.0
    IsReady-at d soltrace_daemon_py r = r.1.0
    IsReady-at d soltrace_bulk_py r = r.1.1.0

    installed-Checked :
        (d : Disk C) (tmps : List File) (p : Process)
        → tmps ≡ files
        → All (IsReady d) tmps
        → (file : File)
        → (c : C) × Checked file c
          × ((after_install out tmps (install out tmps d) p).0.installed file ≡ some c)
    installed-Checked d tmps p e ready file =
        let r = subst (All (IsReady d)) e ready in
        let (c, s, h) = IsReady-at d file r in
        (
          c,
          h,
          after_install-installed tmps (install out tmps d) p file
              ∙ ap (λ k. (install out k d).1.installed file) e
              ∙ install_all d file r
              ∙ s,
        )

    after_download_atomic :
        (before : Disk C) (r : Bool × List File × Disk C) (p : Process)
        → Downloaded files [] before r
        → AllOrNone before p (after_download out r p)
    after_download_atomic before (false, tmps, d) p down =
        inl (λ file. clean_up-installed tmps d file ∙ ap (λ i. i file) down.0, refl)
    after_download_atomic before (true, tmps, d) p down =
        inr (installed-Checked d tmps p (down.1 refl).0 (down.1 refl).1)

    -- If every rename succeeds, an update leaves every installed file as it was and the process
    -- going on, or every file is the content that was downloaded for it, checked for its syntax
    -- if it is a program.
    pub self_update_atomic :
        (url : Text) (d : Disk C) (p : Process) → AllOrNone d p (self_update out url d p)
    unfolding self_update
    self_update_atomic url d p = elim (Bool-cases (is_empty (rstrip_slashes url))) [
      | inl e ↦ rw e (inl (λ f. refl, refl))
      | inr e ↦ elim (Bool-cases (validate_update_url out (rstrip_slashes url))) [
        | inr v ↦ rw (e, v) (inl (λ f. refl, refl))
        | inl v ↦ rw (e, v) (after_download_atomic d _ p (files_ready d))
      ]
    ]
