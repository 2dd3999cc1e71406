-- ===== src/Voice/Intent/Private.antt =====
-- What a text about private mode can do.
use rato.Prelude.{ℕ, List, Bool, ◌||◌, codes, contains}

-- The phrases that pause the sensors and the ones that resume them.
abbrev pub names_pause : List ℕ → Bool
names_pause t =
    contains t (codes "pause sensors")
    || contains t (codes "stop listening")
    || contains t (codes "disable sensors")
    || contains t (codes "pausar sensores")
    || contains t (codes "para sensores")

abbrev pub names_resume : List ℕ → Bool
names_resume t =
    contains t (codes "resume sensors")
    || contains t (codes "enable sensors")
    || contains t (codes "voltar sensores")
    || contains t (codes "retomar sensores")
