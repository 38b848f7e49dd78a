-- ===== src/Recalc/Closed.antt =====
-- The temporary directories after a recalculation: src/xllib/recalc/api.py of excel-library.
use luis_puentes.Prelude.{
  ◌≡◌, refl, ap, String, Bool, true, Option, none, some, List, [], ◌∷◌, ◌==◌, eq_refl, not, any,
  keep, arith,
}
use luis_puentes.Result.{Result, ok, raise}
use luis_puentes.Recalc.{
  Backend, Python, Files, Turns, RecalcResult, Target, Disk, Interruption, cleanup, finish,
  with_workspace, run_chain, recalculate_target, recalculate, close,
}

-- The disk after a call, once its handle is closed if it gave one.
abbrev pub after_close : Result RecalcResult × Disk → Disk
after_close (raise e, disk) = disk
after_close (ok r, disk) = (close r disk).1

-- No temporary directory has the name yet.
abbrev pub is_fresh : String → Disk → Bool
is_fresh name disk = not (any (λ (w : String × Files). w.0 == name) disk.workspaces)

keep-fresh :
    (name : String) (ws : List (String × Files))
    → not (any (λ (w : String × Files). w.0 == name) ws) ≡ true
    → keep (λ (w : String × Files). not (w.0 == name)) ws ≡ ws
keep-fresh name [] h = refl
keep-fresh name (w ∷ ws) h = ground (arith, h, keep-fresh name ws)

cleanup-fresh :
    (name : String) (files : Files) (disk : Disk)
    → is_fresh name disk ≡ true
    → cleanup name (with_workspace name files disk) ≡ disk
cleanup-fresh name files disk h =
    rw (eq_refl name)
      (ap (λ ws. record disk { workspaces = ws }) (keep-fresh name disk.workspaces h))

finish-closed :
    (source name : String) (disk : Disk) (interruption : Option Interruption) (t : Turns)
    (o : Option (String × String))
    → is_fresh name disk ≡ true
    → after_close (finish source name disk interruption (record t { copy = o })) ≡ disk
unfolding close
finish-closed source name disk (some (e, files)) t o h = cleanup-fresh name files disk h
finish-closed source name disk none t none h = cleanup-fresh name t.files disk h
finish-closed source name disk none t (some x) h = cleanup-fresh name t.files disk h

-- If the temporary directory is a new one, a recalculation that raises, and one whose result is then closed,
-- leave the temporary directories as they were, whatever the backends do with their copies and whatever
-- exception leaves the chain at whatever point.
pub recalculate-closed :
    (py : Python) (chain : List Backend) (interruption : Option Interruption)
    (workspace source : String) (disk : Disk)
    → is_fresh workspace disk ≡ true
    → after_close (recalculate py chain interruption workspace source disk) ≡ disk
unfolding recalculate
recalculate-closed py chain interruption workspace source disk h = go (disk.target source)
  where
    go :
        (t : Target)
        → after_close (recalculate_target py chain interruption workspace source t disk) ≡ disk
    go Target.missing = refl
    go Target.directory = refl
    go (Target.file bytes) =
        let t = run_chain py (py.resolve source) bytes workspace 0 chain in
        finish-closed (py.resolve source) workspace disk interruption t t.copy h
