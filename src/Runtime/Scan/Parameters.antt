-- ===== src/Runtime/Scan/Parameters.antt =====
-- All parameters of a request: which are scanned, and what is answered if one cannot be.
use bricks.Prelude.{◌≡◌, refl, ap, ◌⊎◌, inl, inr, true, false, List, [], ◌∷◌, ◌++◌}
use bricks.Prelude.Text.{Text}
use bricks.Prelude.Result.{ok, err}
use bricks.Runtime.Errors.{Response, pointer, error_list}
use bricks.Runtime.Errors.Sent.{answered, write_error_lem}
use bricks.Runtime.Scan.{
  Scanners, Target, ScanParameter, Request, build_invalid_value_error, Outcome, scan_at, Scanned,
  targets_of, and_target, scanned, scan_parameters,
}

module _ {V : Type 0} (sc : Scanners V) (r : Request) where
  -- Each parameter is scanned, to its new target.
  abbrev pub Sets : List (ScanParameter V) → List (Target V) → Type 0
  Sets [] [] = Unit
  Sets [] (t ∷ ts) = ⊥
  Sets (p ∷ ps) [] = ⊥
  Sets (p ∷ ps) (t ∷ ts) = (scan_at sc p r p.location ≡ ok t) × Sets ps ts

  -- A parameter that cannot be scanned, behind others that were
  pub record IsRefused (ps : List (ScanParameter V)) (w : Response) (s : Scanned sc) : Type 0 where
    pub front : List (ScanParameter V)
    pub refused : ScanParameter V
    pub behind : List (ScanParameter V)
    pub typ : Text
    pub value : Text
    pub new_targets : List (Target V)
    pub parts : ps ≡ front ++ refused ∷ behind
    pub sets : Sets front new_targets
    pub invalid : scan_at sc refused r refused.location ≡ err (typ, value)
    pub kept : s.targets ≡ new_targets ++ refused.target ∷ targets_of sc behind
    pub told :
        s.response ≡ answered 400 w (build_invalid_value_error sc refused.name typ value ∷ [])

  abbrev pub IsRead : List (ScanParameter V) → Response → Scanned sc → Type 0
  IsRead ps w s = (s.valid ≡ true) × Sets ps s.targets × (s.response ≡ w)

  abbrev pub Scans : List (ScanParameter V) → Response → Scanned sc → Type 0
  Scans ps w s = IsRead ps w s ⊎ ((s.valid ≡ false) × IsRefused ps w s)

  refuse :
      (p : ScanParameter V) (ps : List (ScanParameter V)) (w : Response) (typ value : Text)
      (rest : Scanned sc)
      → scan_at sc p r p.location ≡ err (typ, value)
      → Scans (p ∷ ps) w (scanned sc p ps w (err (typ, value)) rest)
  unfolding scanned error_list
  refuse p ps w typ value rest h = inr (
    refl,
    record {
      front = [];
      refused = p;
      behind = ps;
      typ = typ;
      value = value;
      new_targets = [];
      parts = refl;
      sets = tt;
      invalid = h;
      kept = refl;
      told = (write_error_lem 400 (pointer (build_invalid_value_error sc p.name typ value)) w).0;
    },
  )

  -- A parameter that is scanned, in front of the rest
  go_on :
      (p : ScanParameter V) (ps : List (ScanParameter V)) (w : Response) (t : Target V)
      (rest : Scanned sc)
      → scan_at sc p r p.location ≡ ok t
      → Scans ps w rest
      → Scans (p ∷ ps) w (and_target sc t rest)
  go_on p ps w t rest h (inl (v, sets, same)) = inl (v, (h, sets), same)
  go_on p ps w t rest h (inr (v, x)) = inr (
    v,
    record {
      front = p ∷ x.front;
      refused = x.refused;
      behind = x.behind;
      typ = x.typ;
      value = x.value;
      new_targets = t ∷ x.new_targets;
      parts = ap (◌∷◌ p) x.parts;
      sets = (h, x.sets);
      invalid = x.invalid;
      kept = ap (◌∷◌ t) x.kept;
      told = x.told;
    },
  )

  step :
      (p : ScanParameter V) (ps : List (ScanParameter V)) (w : Response) (rest : Scanned sc)
      → Scans ps w rest
      → (o : Outcome sc) → scan_at sc p r p.location ≡ o
      → Scans (p ∷ ps) w (scanned sc p ps w o rest)
  step p ps w rest h (err (typ, value)) e = refuse p ps w typ value rest e
  step p ps w rest h (ok t) e = unfold scanned in go_on p ps w t rest e h

  -- ScanParameters returns true, with the response untouched, and each parameter is scanned to its new
  -- target; or it returns false at the first one that cannot be: those in front of it have their new
  -- targets and the others their old ones, and the answer is 400 with one error that names it.
  pub scan_parameters-Scans :
      (ps : List (ScanParameter V)) (w : Response) → Scans ps w (scan_parameters sc ps r w)
  unfolding scan_parameters
  scan_parameters-Scans [] w = inl (refl, tt, refl)
  scan_parameters-Scans (p ∷ ps) w =
      step p ps w (scan_parameters sc ps r w) (scan_parameters-Scans ps w)
        (scan_at sc p r p.location) refl
