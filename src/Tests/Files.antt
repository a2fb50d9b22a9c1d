-- ===== src/Tests/Files.antt =====
-- The directory entry "KERNEL  BIN", the path "/bin/sh", and a disk whose bytes are their offsets.
use icosaos.Prelude.{
  ℕ, ◌+◌, ◌-◌, ◌*◌, ◌%◌, ◌≡◌, refl, arith, ◌&&◌, leb, ltb, if◌then◌else◌, List, [], ◌∷◌, get_elem,
}
use icosaos.Fat32.{format_fat_name, get_next_path_node}
use icosaos.Fat32.Names.{Names, format_fat_name-Names}
use icosaos.Fat32.Paths.{Node, get_next_path_node-Node}
use icosaos.Strings.Compare.{HoldsString}
use icosaos.Disk.{Registers, fat32_read_sector}
use icosaos.Disk.Sector.{sector_of, fat32_read_sector-bytes}

abbrev entry : ℕ → ℕ
entry = get_elem (75 ∷ 69 ∷ 82 ∷ 78 ∷ 69 ∷ 76 ∷ 32 ∷ 32 ∷ 66 ∷ 73 ∷ 78 ∷ [])

format_fat_name-Names_example :
    Names
      (λ i. 255)
      (75 ∷ 69 ∷ 82 ∷ 78 ∷ 69 ∷ 76 ∷ 46 ∷ 66 ∷ 73 ∷ 78 ∷ [])
      (format_fat_name entry (λ i. 255))
format_fat_name-Names_example = format_fat_name-Names entry (λ i. 255)

abbrev path : List ℕ
path = 47 ∷ 98 ∷ 105 ∷ 110 ∷ 47 ∷ 115 ∷ 104 ∷ []

path-HoldsString : HoldsString (get_elem path) 0 path
path-HoldsString = (
  refl,
  omega arith,
  omega arith,
  omega arith,
  (
    refl,
    omega arith,
    omega arith,
    omega arith,
    (
      refl,
      omega arith,
      omega arith,
      omega arith,
      (
        refl,
        omega arith,
        omega arith,
        omega arith,
        (
          refl,
          omega arith,
          omega arith,
          omega arith,
          (
            refl,
            omega arith,
            omega arith,
            omega arith,
            (refl, omega arith, omega arith, omega arith, (refl, omega arith)),
          ),
        ),
      ),
    ),
  ),
)

get_next_path_node-Node_example :
    Node (get_elem path) path (get_next_path_node 8 0 (get_elem path) (λ i. 255))
get_next_path_node-Node_example =
    get_next_path_node-Node 8 0 (get_elem path) (λ i. 255) path (omega arith) path-HoldsString

abbrev disk : ℕ → ℕ → ℕ
disk s k = k % 256

abbrev drive : Registers → ℕ → ℕ
drive r i = disk (sector_of r) (2 * i) + 256 * disk (sector_of r) (2 * i + 1)

fat32_read_sector-bytes_example :
    ((fat32_read_sector drive 7 0x1000 (λ a. 0)).0 ≡ 1)
    × ((a : ℕ)
        → (fat32_read_sector drive 7 0x1000 (λ a. 0)).1 a
          ≡ (if leb 0x1000 a && ltb a 0x1200 then disk 2055 (a - 0x1000) else 0))
fat32_read_sector-bytes_example =
    fat32_read_sector-bytes drive disk 7 0x1000 (λ a. 0) (λ r i one read. refl) (λ s k. omega arith)
      (omega arith) (omega arith)
