-- ===== src/Frame/Tests.antt =====
-- Runs of the frames, on the text "5,6" in two pieces, and before another piece.
use spsc.Prelude.{List, ℕ, [], ◌∷◌, ◌++◌}
use spsc.Frame.{start_marker, end_marker}

abbrev five_six : List ℕ
five_six = 53 ∷ 44 ∷ 54 ∷ []

-- the pieces end within the text
abbrev front : List ℕ
front = start_marker ++ 53 ∷ []

abbrev back : List ℕ
back = 44 ∷ 54 ∷ end_marker
