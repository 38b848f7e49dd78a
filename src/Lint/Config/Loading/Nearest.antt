-- ===== src/Lint/Config/Loading/Nearest.antt =====
-- The directories of discover_config: src/xllib/lint/config.py of excel-library.
use luis_puentes.Prelude.{◌≡◌, refl, true, List, [], ◌∷◌, ◌++◌, ◌||◌, arith}
use luis_puentes.Lint.Config.Loading.{Directory, discover_config}

-- What lies above a project's root or the home directory has no say in which file is found.
pub discover_config-bounded :
    (near : List Directory) (root : Directory) (far : List Directory)
    → (root.has_git || root.is_home) ≡ true
    → discover_config (near ++ root ∷ far) ≡ discover_config (near ++ root ∷ [])
unfolding discover_config
discover_config-bounded [] root far h = rw h refl
discover_config-bounded (d ∷ ds) root far h = ground (arith, discover_config-bounded ds root far h)
