-- ===== src/Cluster/Quantity.antt =====
-- Quantities of CPU and memory as Kubernetes writes them (scripts/node-pressure-monitor.py). Numbers
-- are exact, in thousandths; how `float` reads a text is a parameter.
use stardatadblabs.Base.{
  ℕ, ◌-◌, ◌*◌, Text, codes, ends_with, Option, none, some, List, [], ◌∷◌, length, take,
  if◌then◌else◌,
}

-- `float(text)` in thousandths, and none where it raises a ValueError.
abbrev pub Float : Type 0
Float = Text → Option ℕ

abbrev pub scaled : ℕ → Option ℕ → Option ℕ
scaled k none = none
scaled k (some n) = some (n * k)

-- `value[:-k]`
abbrev pub without_last : ℕ → Text → Text
without_last k value = take (length value - k) value

unfoldable pub parse_cpu_to_millicores : Float → Text → Option ℕ
unfolding ends_with
parse_cpu_to_millicores float value =
    if ends_with value (codes "m") then float (without_last 1 value) else scaled 1000 (float value)

-- The suffixes in the order in which they are tried.
abbrev pub units : List (Text × ℕ)
units =
    (codes "Ki", 1024)
    ∷ (codes "Mi", 1048576)
    ∷ (codes "Gi", 1073741824)
    ∷ (codes "Ti", 1099511627776)
    ∷ (codes "K", 1000)
    ∷ (codes "M", 1000000)
    ∷ (codes "G", 1000000000)
    ∷ (codes "T", 1000000000000)
    ∷ []

unfoldable pub with_units : Float → Text → List (Text × ℕ) → Option ℕ
unfolding ends_with
with_units float value [] = float value
with_units float value ((suffix, multiplier) ∷ rest) =
    let other = with_units float value rest in
    if ends_with value suffix
    then scaled multiplier (float (without_last (length suffix) value))
    else other

unfoldable pub parse_memory_to_bytes : Float → Text → Option ℕ
unfolding with_units
parse_memory_to_bytes float value = with_units float value units
