-- ===== src/Disclosure/Snapshot.antt =====
-- `buildSnapshot` of apps/api/src/disclosure/disclosure.service.ts.
use serveproof.Prelude.{
  ℕ, zero, suc, ◌+◌, Bool, true, false, ◌&&◌, Option, none, some, List, [], ◌∷◌, ◌++◌, map, Text,
  text, leb, ◌==◌, if◌then◌else◌, or_else, is_some, length, sum_by,
}
use serveproof.Prelude.Tables.{filter_rows, count_rows}
use serveproof.Allocation.Maps.{map_get, map_set, includes}
use serveproof.Disclosure.Types.{
  Level, level_one, level_two, level_three, Shift, Entry, Figures, Snapshot, criterion, figures,
  detail, Grant, Store, Runtime,
}

abbrev pub date_of : Option Shift → Text
date_of none = []
date_of (some s) = s.business_date

-- A missing or empty date is out of range.
abbrev pub in_range : Runtime → Grant → Text → Bool
in_range rt g [] = false
in_range rt g (c ∷ cs) = leb g.range_start (rt.noon (c ∷ cs)) && leb (rt.noon (c ∷ cs)) g.range_end

unfoldable pub entries_of : Runtime → Grant → Store → List Entry
unfolding filter_rows
entries_of rt g st =
    filter_rows (λ e. in_range rt g (date_of e.shift))
      (filter_rows (λ e. e.worker == g.worker && e.is_active) st.entries)

-- `slice(0, n)`.
abbrev pub slice_to : ℕ → Text → Text
slice_to zero t = []
slice_to (suc n) [] = []
slice_to (suc n) (c ∷ cs) = c ∷ slice_to n cs

abbrev pub month_of : Entry → Text
month_of e = slice_to 7 (date_of e.shift)

-- `new Set(xs)`, in the order of insertion.
unfoldable pub distinct_onto : List Text → List Text → List Text
unfolding includes
distinct_onto seen [] = seen
distinct_onto seen (x ∷ xs) = elim (includes seen x) [
  | true ↦ distinct_onto seen xs
  | false ↦ distinct_onto (seen ++ (x ∷ [])) xs
]

unfoldable pub has_number : ℕ → List ℕ → Bool
has_number n [] = false
has_number n (m ∷ ms) = if m == n then true else has_number n ms

unfoldable pub distinct_numbers : List ℕ → List ℕ → List ℕ
unfolding has_number
distinct_numbers seen [] = seen
distinct_numbers seen (x ∷ xs) = elim (has_number x seen) [
  | true ↦ distinct_numbers seen xs
  | false ↦ distinct_numbers (seen ++ (x ∷ [])) xs
]

-- `counts[key] = (counts[key] ?? 0) + n`.
unfoldable pub add_to : Text → ℕ → List (Text × ℕ) → List (Text × ℕ)
unfolding map_get map_set
add_to key n counts = map_set key (or_else (map_get key counts) 0 + n) counts

unfoldable pub count_grades : List Entry → List (Text × ℕ) → List (Text × ℕ)
unfolding add_to
count_grades [] counts = counts
count_grades (e ∷ es) counts = count_grades es (add_to e.grade 1 counts)

-- The loop of the breakdown; an empty month is passed over.
abbrev pub add_month : Text → ℕ → List (Text × ℕ) → List (Text × ℕ)
add_month [] n months = months
add_month (c ∷ cs) n months = add_to (c ∷ cs) n months

unfoldable pub monthly : List Entry → List (Text × ℕ) → List (Text × ℕ)
unfolding add_to
monthly [] months = months
monthly (e ∷ es) months = monthly es (add_month (month_of e) e.allocated months)

-- A count of 0 is falsy.
abbrev pub is_counted : Option ℕ → Bool
is_counted none = false
is_counted (some zero) = false
is_counted (some (suc n)) = true

unfoldable pub first_grade : List Text → List (Text × ℕ) → Text
unfolding map_get
first_grade [] counts = text "E"
first_grade (g ∷ gs) counts = if is_counted (map_get g counts) then g else first_grade gs counts

abbrev pub grade_order : List Text
grade_order = text "A" ∷ text "B" ∷ text "C" ∷ text "D" ∷ text "E" ∷ []

unfoldable pub is_corrected : List Entry → Bool
is_corrected [] = false
is_corrected (e ∷ es) = if is_some e.correction_of then true else is_corrected es

abbrev pub from_provider : Option Shift → Bool
from_provider none = false
from_provider (some s) = s.from_provider

abbrev pub total : List Entry → ℕ
total = sum_by (λ e. e.allocated)

abbrev pub average : Runtime → ℕ → ℕ → ℕ
average rt amount zero = 0
average rt amount (suc n) = rt.round_div amount (suc n)

abbrev pub share : Runtime → ℕ → ℕ → ℕ
share rt count zero = 0
share rt count (suc n) = rt.round_percent count (suc n)

unfoldable pub figures_of : Runtime → List Entry → Figures
unfolding distinct_onto distinct_numbers count_grades first_grade is_corrected monthly count_rows
figures_of rt es =
    let months = length (distinct_onto [] (map month_of es)) in
    let grades = count_grades es [] in
    record {
      average_monthly = average rt (total es) months;
      months_covered = months;
      payer_count = length (distinct_numbers [] (map (λ e. e.venue) es));
      grades = grades;
      best_grade = first_grade grade_order grades;
      has_corrections = is_corrected es;
      total_allocated = total es;
      total_paid = sum_by (λ e. e.paid) es;
      provider_share = share rt (count_rows (λ e. from_provider e.shift) es) (length es);
      monthly_breakdown = monthly es [];
      observed_days = length (distinct_onto [] (map (λ e. date_of e.shift) es));
    }

abbrev pub snapshot_of : Level → Option ℕ → Figures → List Entry → Snapshot
snapshot_of level_one threshold f es =
    criterion (or_else threshold 0) (leb (or_else threshold 0) f.average_monthly)
snapshot_of level_two threshold f es = figures f
snapshot_of level_three threshold f es = detail f es

unfoldable pub build_snapshot : Runtime → Grant → Store → Snapshot
unfolding entries_of figures_of
build_snapshot rt g st =
    let es = entries_of rt g st in snapshot_of g.level g.threshold (figures_of rt es) es
