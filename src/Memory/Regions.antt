-- ===== src/Memory/Regions.antt =====
-- kernel/Memory/Memory.c: which regions come out, and that no byte outside of the object is read.
use charcoalos.Endian.Decode.{be32_bytes, be64_bytes, read_be-encode}
use charcoalos.Memory.{
  MemoryRegion, check_region, read_cells, read_regions, store_region, physical_memory_regions,
}
use charcoalos.Machine.{Machine, returned}
use charcoalos.Prelude.{
  ℕ, suc, ◌+◌, ◌*◌, ◌^◌, ◌≤◌, ◌<◌, ◌≡◌, refl, ◌∙◌, ◌⊎◌, inl, inr, List, [], ◌∷◌, ◌++◌, append_assoc,
  arith, ◌==◌, if◌then◌else◌, length, drop, All, length-append, Bytes, set-append, drop-append,
  length-snoc,
}

-- A region as the device tree writes it, in `address_cells` and `size_cells` cells.
abbrev encode_cells : ℕ → ℕ → Bytes
encode_cells cells v = if cells == 2 then be64_bytes v else be32_bytes v

abbrev pub encode_region : ℕ → ℕ → MemoryRegion → Bytes
encode_region address_cells size_cells r =
    encode_cells address_cells r.base_address ++ encode_cells size_cells r.size

abbrev pub encode_regions : ℕ → ℕ → List MemoryRegion → Bytes
encode_regions address_cells size_cells [] = []
encode_regions address_cells size_cells (r ∷ regions) =
    encode_region address_cells size_cells r ++ encode_regions address_cells size_cells regions

-- A region that the kernel accepts: not empty, and without an address past 2 ^ 64 - 1.
pub record IsUsable (r : MemoryRegion) : Type 0 where
  pub not_empty : 0 < r.size
  pub no_overflow : r.base_address + r.size < 2 ^ 64

-- A number that a field of so many cells can hold.
abbrev pub FitsCells : ℕ → ℕ → Type 0
FitsCells cells v = v < 2 ^ (32 * cells)

check_region_lem :
    (r : MemoryRegion) (m : Machine)
    → IsUsable r
    → check_region r.base_address r.size m ≡ (returned tt, m)
unfolding check_region
check_region_lem r m u = ground arith

read_one :
    (v : ℕ) (front back : Bytes) (m : Machine)
    → v < 2 ^ 32
    → read_cells 1 (front ++ (be32_bytes v ++ back)) (length front) m
      ≡ (returned (v, length front + 4), m)
unfolding read_cells
read_one v front back m h =
    rw (drop-append front (be32_bytes v ++ back)) (rw ((read_be-encode v 0 back h (omega arith)).0))

read_two :
    (v : ℕ) (front back : Bytes) (m : Machine)
    → v < 2 ^ 64
    → read_cells 2 (front ++ (be64_bytes v ++ back)) (length front) m
      ≡ (returned (v, length front + 8), m)
unfolding read_cells
read_two v front back m h =
    rw (drop-append front (be64_bytes v ++ back)) (rw ((read_be-encode 0 v back (omega arith) h).1))

abbrev pub OneOrTwo : ℕ → Type 0
OneOrTwo cells = (cells ≡ 1) ⊎ (cells ≡ 2)

-- A field that stands behind `front` is read, and the cursor stands behind it.
read_cells_lem :
    (cells v : ℕ) (front back : Bytes) (m : Machine)
    → OneOrTwo cells
    → FitsCells cells v
    → read_cells cells (front ++ (encode_cells cells v ++ back)) (length front) m
      ≡ (returned (v, length (front ++ encode_cells cells v)), m)
read_cells_lem cells v front back m (inl one) fits =
    rw one (rw (read_one v front back m (rw one at fits), length-append front (be32_bytes v)))
read_cells_lem cells v front back m (inr two) fits =
    rw two (rw (read_two v front back m (rw two at fits), length-append front (be64_bytes v)))

store_region_end :
    (done rest : List MemoryRegion) (x r : MemoryRegion) (m : Machine)
    → store_region (done ++ (x ∷ rest)) (length done) r m ≡ (returned (done ++ (r ∷ rest)), m)
unfolding store_region
store_region_end done rest x r m =
    ground (arith, set-append {0} done rest x r, length-append {0} done (x ∷ rest))

-- One round of the loop that passes its checks.
read_regions-suc :
    (r : MemoryRegion) (left i address_cells size_cells : ℕ) (text : Bytes) (at middle end : ℕ)
    (regions regions' : List MemoryRegion) (m : Machine)
    → read_cells address_cells text at m ≡ (returned (r.base_address, middle), m)
    → read_cells size_cells text middle m ≡ (returned (r.size, end), m)
    → check_region r.base_address r.size m ≡ (returned tt, m)
    → store_region regions i r m ≡ (returned regions', m)
    → read_regions (suc left) i address_cells size_cells text at regions m
      ≡ read_regions left (i + 1) address_cells size_cells text end regions' m
unfolding read_regions
read_regions-suc r left i address_cells size_cells text at middle end regions regions' m p q c s =
    rw p (rw q (rw c (rw s)))

-- A usable region whose numbers fit in their fields.
abbrev pub Encodable : ℕ → ℕ → MemoryRegion → Type 0
Encodable address_cells size_cells r =
    IsUsable r × FitsCells address_cells r.base_address × FitsCells size_cells r.size

module _ (address_cells size_cells : ℕ) (a : OneOrTwo address_cells) (s : OneOrTwo size_cells) where
  -- The loop behind the regions in `done`, whose encoding is `front`.
  read_regions_lem :
      (regions done rest : List MemoryRegion) (front back : Bytes) (m : Machine)
      → All (Encodable address_cells size_cells) regions
      → length regions ≤ length rest
      → read_regions
          (length regions)
          (length done)
          address_cells
          size_cells
          (front ++ (encode_regions address_cells size_cells regions ++ back))
          (length front)
          (done ++ rest)
          m
        ≡ (returned (done ++ (regions ++ drop (length regions) rest)), m)
  unfolding read_regions
  read_regions_lem [] done rest front back m h k = refl
  read_regions_lem (r ∷ regions) done [] front back m h k = absurd (omega arith)
  read_regions_lem (r ∷ regions) done (x ∷ rest) front back m h k =
      let first : Bytes = encode_cells address_cells r.base_address in
      let second : Bytes = encode_cells size_cells r.size in
      let later : Bytes = encode_regions address_cells size_cells regions ++ back in
      let whole : Bytes =
        front ++ (encode_regions address_cells size_cells (r ∷ regions) ++ back) in
      let at_first : whole ≡ front ++ (first ++ (second ++ later)) = simp append_assoc in
      let at_second : whole ≡ (front ++ first) ++ (second ++ later) = simp append_assoc in
      let at_later : whole ≡ ((front ++ first) ++ second) ++ later = simp append_assoc in
      let read_base : read_cells address_cells whole (length front) m
          ≡ (returned (r.base_address, length (front ++ first)), m) =
        rw at_first (read_cells_lem address_cells r.base_address front _ m a h.0.1) in
      let read_size : read_cells size_cells whole (length (front ++ first)) m
          ≡ (returned (r.size, length ((front ++ first) ++ second)), m) =
        rw at_second (read_cells_lem size_cells r.size (front ++ first) later m s h.0.2) in
      read_regions-suc r (length regions) (length done) address_cells size_cells whole _ _ _ _ _ m
        read_base read_size (check_region_lem r m h.0.0) (store_region_end done rest x r m)
      ∙ rw (length-snoc done r, at_later, ← append_assoc done (r ∷ []) rest)
          (read_regions_lem regions (done ++ (r ∷ [])) rest ((front ++ first) ++ second) back m h.1
              (omega arith)
            ∙ simp append_assoc)

length-encode_cells : (cells v : ℕ) → OneOrTwo cells → length (encode_cells cells v) ≡ 4 * cells
length-encode_cells cells v (inl one) = rw one
length-encode_cells cells v (inr two) = rw two

length-encode_regions :
    (address_cells size_cells : ℕ) (regions : List MemoryRegion)
    → OneOrTwo address_cells
    → OneOrTwo size_cells
    → length (encode_regions address_cells size_cells regions)
      ≡ length regions * (4 * (address_cells + size_cells))
length-encode_regions address_cells size_cells [] a s = omega arith
length-encode_regions address_cells size_cells (r ∷ regions) a s =
    let first : Bytes = encode_cells address_cells r.base_address in
    let second : Bytes = encode_cells size_cells r.size in
    let later : Bytes = encode_regions address_cells size_cells regions in
    omega (
      arith,
      length-append {0} (first ++ second) later,
      length-append {0} first second,
      length-encode_cells address_cells r.base_address a,
      length-encode_cells size_cells r.size s,
      length-encode_regions address_cells size_cells regions a s,
    )

-- Encoding between one and sixteen usable regions as the device tree does, in one or two cells for
-- addresses and for sizes, and decoding them gives them back at the front of the array, with their
-- number, and nothing is printed.
pub physical_memory_regions-encode :
    (address_cells size_cells : ℕ) (a : OneOrTwo address_cells) (s : OneOrTwo size_cells)
    (regions array : List MemoryRegion) (rest : Bytes) (m : Machine)
    → All (Encodable address_cells size_cells) regions
    → 0 < length regions
    → length regions ≤ 16
    → length array ≡ 16
    → physical_memory_regions array address_cells size_cells
        (encode_regions address_cells size_cells regions ++ rest)
        (length (encode_regions address_cells size_cells regions))
        m
      ≡ (returned (regions ++ drop (length regions) array, length regions), m)
unfolding physical_memory_regions
physical_memory_regions-encode address_cells size_cells a s regions array rest m h p q k = ground (
  arith,
  length-encode_regions address_cells size_cells regions a s,
  read_regions_lem address_cells size_cells a s regions [] array [] rest m h (omega arith),
)
