-- ===== src/Evidence/Csv.antt =====
-- `splitCsvLine` (apps/api/src/evidence/csv-normalizer.ts), and the splitting of a text into lines.
use serveproof.Prelude.{Bool, true, false, ◌&&◌, List, [], ◌∷◌, ◌++◌, Text, ◌==◌}

-- The loop over the characters; the arguments are `inQuotes`, `current` and the rest of the line.
unfoldable pub split_from : Bool → Text → Text → List Text
split_from in_quotes current [] = current ∷ []
split_from true current (c ∷ []) = elim (c == b'"') [
  | true ↦ split_from false current []
  | false ↦ split_from true (current ++ (c ∷ [])) []
]
split_from true current (c ∷ d ∷ cs) = elim (c == b'"') [
  | true ↦ elim (d == b'"') [
    | true ↦ split_from true (current ++ (b'"' ∷ [])) cs
    | false ↦ split_from false current (d ∷ cs)
  ]
  | false ↦ split_from true (current ++ (c ∷ [])) (d ∷ cs)
]
split_from false current (c ∷ cs) = elim (c == b'"') [
  | true ↦ split_from true current cs
  | false ↦ elim (c == b',') [
    | true ↦ current ∷ split_from false [] cs
    | false ↦ split_from false (current ++ (c ∷ [])) cs
  ]
]

abbrev pub split_csv_line : Text → List Text
split_csv_line line = split_from false [] line

-- `split(/\r?\n/)`, with the line so far.
unfoldable pub split_lines : Text → Text → List Text
split_lines current [] = current ∷ []
split_lines current (c ∷ []) = elim (c == 10) [
  | true ↦ current ∷ split_lines [] []
  | false ↦ split_lines (current ++ (c ∷ [])) []
]
split_lines current (c ∷ d ∷ cs) = elim (c == 10) [
  | true ↦ current ∷ split_lines [] (d ∷ cs)
  | false ↦ elim (c == 13 && d == 10) [
    | true ↦ current ∷ split_lines [] cs
    | false ↦ split_lines (current ++ (c ∷ [])) (d ∷ cs)
  ]
]
