-- ===== src/Memory/Safety.antt =====
-- kernel/Memory/Memory.c on any bytes: what can come out.
use charcoalos.Console.Print.{print_literal}
use charcoalos.Console.Hex.{print_value_lem}
use charcoalos.Panic.{panic_lem, panic}
use charcoalos.Machine.Ends.{Ends, Ends-if, Ends-bind, Ends-weaken, Anything}
use charcoalos.Memory.Regions.{IsUsable, OneOrTwo}
use charcoalos.Memory.{
  read_cells, check_region, MemoryRegion, store_region, read_regions, uint64_max, decode_regions,
  physical_memory_regions,
}
use charcoalos.Machine.{halted, Machine, Stop, or_fault, fault}
use charcoalos.Endian.{read_be32_from_address, read_be64_from_address}
use native.Mathlib.Nat.{zero-add, mod-add-div'}
use charcoalos.Prelude.{
  ℕ, zero, suc, ◌+◌, ◌-◌, ◌*◌, ◌/◌, ◌%◌, ◌≤◌, ◌<◌, ◌≡◌, refl, ◌∙◌, ◌⊎◌, inl, inr, not, ◌||◌, Option,
  some, List, [], ◌∷◌, arith, ltb, ◌==◌, Option-cases, length, set, take, drop, All, length-set,
  length-drop, get_elem?-IsSome, Bytes, String,
}

read_be32-total :
    (text : Bytes) → 4 ≤ length text → (v : ℕ) × (read_be32_from_address text ≡ some v)
unfolding read_be32_from_address
read_be32-total (_ ∷ _ ∷ _ ∷ _ ∷ _) h = (_, refl)
read_be32-total (_ ∷ _ ∷ _ ∷ []) h = absurd (omega arith)
read_be32-total (_ ∷ _ ∷ []) h = absurd (omega arith)
read_be32-total (_ ∷ []) h = absurd (omega arith)
read_be32-total [] h = absurd (omega arith)

read_be64-total :
    (text : Bytes) → 8 ≤ length text → (v : ℕ) × (read_be64_from_address text ≡ some v)
unfolding read_be64_from_address
read_be64-total text h = elim (Option-cases (read_be64_from_address text)) [
  | inl gone ↦
      let (b0, e0) = get_elem?-IsSome text 0 (omega arith) in
      let (b1, e1) = get_elem?-IsSome text 1 (omega arith) in
      let (b2, e2) = get_elem?-IsSome text 2 (omega arith) in
      let (b3, e3) = get_elem?-IsSome text 3 (omega arith) in
      let (b4, e4) = get_elem?-IsSome text 4 (omega arith) in
      let (b5, e5) = get_elem?-IsSome text 5 (omega arith) in
      let (b6, e6) = get_elem?-IsSome text 6 (omega arith) in
      let (b7, e7) = get_elem?-IsSome text 7 (omega arith) in
      let read = rw (e0, e1, e2, e3, e4, e5, e6, e7) at gone in cc
  | inr found ↦ found
]

-- The bytes up to `n` are in the object, or reading past it is allowed.
abbrev pub Readable : (Stop → Type 0) → Bytes → ℕ → Type 0
Readable S text n = (n ≤ length text) ⊎ S fault

module _ {A : Type 0} (S : Stop → Type 0) (text : Bytes) (read : Bytes → Option A) (n : ℕ)
    (total : (t : Bytes) → n ≤ length t → (v : A) × (read t ≡ some v)) where
  or_fault-read :
      (cursor : ℕ) (m : Machine)
      → Readable S text (cursor + n)
      → Ends S Anything (or_fault (read (drop cursor text)) m).0
  or_fault-read cursor m (inl inside) =
      let (v, e) = total (drop cursor text) (omega (arith, length-drop {0} cursor text)) in rw e tt
  or_fault-read cursor m (inr allowed) = elim (Option-cases (read (drop cursor text))) [
    | inl e ↦ rw e allowed
    | inr (v, e) ↦ rw e tt
  ]

Readable-le :
    (S : Stop → Type 0) (text : Bytes) (k n : ℕ) → k ≤ n → Readable S text n → Readable S text k
Readable-le S text k n le (inl inside) = inl (omega arith)
Readable-le S text k n le (inr allowed) = inr allowed

take-set :
    (regions : List MemoryRegion) (i : ℕ) (r : MemoryRegion)
    → All IsUsable (take i regions)
    → IsUsable r
    → i < length regions
    → All IsUsable (take (suc i) (set regions i r))
take-set [] i r h u k = absurd (omega arith)
take-set (x ∷ regions) zero r h u k = (u, tt)
take-set (x ∷ regions) (suc i) r h u k = (h.0, take-set regions i r h.1 u (omega arith))

-- What a run that returns has found.
abbrev pub SafeRegions : ℕ → ℕ → ℕ → List MemoryRegion × ℕ → Type 0
SafeRegions address_cells size_cells reg_size (regions, count) =
    (count ≤ 16)
    × (count * (4 * (address_cells + size_cells)) ≡ reg_size)
    × (length regions ≡ 16)
    × All IsUsable (take count regions)

module _ (S : Stop → Type 0) (halts : S halted) (text : Bytes) where
  panic-Ends : {A : Type 0} (P : A → Type 0) (s : String) (m : Machine) → Ends S P (panic s m).0
  panic-Ends P s m = rw panic_lem halts

  read_cells-Ends :
      (cells cursor : ℕ) (m : Machine)
      → OneOrTwo cells
      → Readable S text (cursor + 4 * cells)
      → Ends S (λ r. r.1 ≡ cursor + 4 * cells) (read_cells cells text cursor m).0
  unfolding read_cells
  read_cells-Ends cells cursor m (inl one) h = rw one (
      Ends-bind S Anything _ (or_fault (read_be32_from_address (drop cursor text))) _ m
        (or_fault-read S text read_be32_from_address 4 read_be32-total cursor m
          (Readable-le S text _ _ (omega arith) h))
        λ v n _. refl)
  read_cells-Ends cells cursor m (inr two) h = rw two (
      Ends-bind S Anything _ (or_fault (read_be64_from_address (drop cursor text))) _ m
        (or_fault-read S text read_be64_from_address 8 read_be64-total cursor m
          (Readable-le S text _ _ (omega arith) h))
        λ v n _. refl)

  check_region-Ends :
      (base size : ℕ) (m : Machine)
      → Ends S
          (λ _. IsUsable (record { base_address = base; size = size }))
          (check_region base size m).0
  unfolding check_region
  check_region-Ends base size m =
      Ends-if _ _ (size == 0) _ _ m (λ _. panic-Ends _ _ m)
        λ not_empty.
          Ends-if _ _ (ltb (uint64_max - size) base) _ _ m (λ _. panic-Ends _ _ m)
            λ no_overflow.
              Ends-if _ _ (ltb uint64_max base) _ _ m (λ _. panic-Ends _ _ m)
                λ base_fits.
                  Ends-if _ _ (ltb uint64_max size) _ _ m (λ _. panic-Ends _ _ m)
                    λ size_fits. ground arith

  store_region-Ends :
      (regions : List MemoryRegion) (i : ℕ) (r : MemoryRegion) (m : Machine)
      → i < length regions
      → Ends S (λ rs. rs ≡ set regions i r) (store_region regions i r m).0
  unfolding store_region
  store_region-Ends regions i r m h = ground arith

  module _ (address_cells size_cells : ℕ) (a : OneOrTwo address_cells)
      (s : OneOrTwo size_cells) where
    read_regions-Ends :
        (left i cursor : ℕ) (regions : List MemoryRegion) (m : Machine)
        → Readable S text (cursor + left * (4 * (address_cells + size_cells)))
        → i + left ≤ length regions
        → All IsUsable (take i regions)
        → Ends S
            (λ rs. (length rs ≡ length regions) × All IsUsable (take (i + left) rs))
            (read_regions left i address_cells size_cells text cursor regions m).0
    unfolding read_regions
    read_regions-Ends zero i cursor regions m h k u =
        let e : i + 0 ≡ i = omega arith in rw e (refl, u)
    read_regions-Ends (suc left) i cursor regions m h k u =
        Ends-bind _ _ _ (read_cells address_cells text cursor) _ m
          (read_cells-Ends address_cells cursor m a (Readable-le S text _ _ (omega arith) h))
          λ base n at_size.
            Ends-bind _ _ _ (read_cells size_cells text base.1) _ n
              (read_cells-Ends size_cells base.1 n s (Readable-le S text _ _ (omega arith) h))
              λ size n' at_end.
                Ends-bind _ _ _ (check_region base.0 size.0) _ n'
                  (check_region-Ends base.0 size.0 n')
                  λ _ n'' usable.
                    Ends-bind _ _ _ (store_region regions i _) _ n''
                      (store_region-Ends regions i _ n'' (omega arith))
                      λ regions' n''' e.
                        (let r : MemoryRegion = record { base_address = base.0; size = size.0 } in
                          let next : i + suc left ≡ i + 1 + left = omega arith in
                          let one_more : i + 1 ≡ suc i = omega arith in
                          rw (e, next)
                            (Ends-weaken {A = List MemoryRegion} _
                              (λ rs.
                                (length rs ≡ length (set regions i r))
                                × All IsUsable (take (i + 1 + left) rs))
                              S
                              (λ rs.
                                (length rs ≡ length regions)
                                × All IsUsable (take (i + 1 + left) rs))
                              _ (λ _ t. t) (λ rs p. (p.0 ∙ length-set regions i r, p.1))
                              (read_regions-Ends left (i + 1) size.1 (set regions i r) n'''
                                (Readable-le S text _ _ (omega arith) h)
                                (omega (arith, length-set {0} regions i r))
                                (rw one_more (take-set regions i r u usable (omega arith))))))

  decode_regions-Ends :
      (address_cells size_cells : ℕ) (array : List MemoryRegion) (reg_size : ℕ) (m : Machine)
      → OneOrTwo address_cells
      → OneOrTwo size_cells
      → Readable S text reg_size
      → length array ≡ 16
      → Ends S
          (SafeRegions address_cells size_cells reg_size)
          (decode_regions
            (4 * (address_cells + size_cells))
            array
            address_cells
            size_cells
            text
            reg_size
            m).0
  unfolding decode_regions
  decode_regions-Ends address_cells size_cells array reg_size m a s h k =
      let one = 4 * (address_cells + size_cells) in
      let parts : reg_size % one + reg_size / one * one ≡ reg_size = mod-add-div' reg_size one in
      Ends-if _ _ (not (reg_size % one == 0)) _ _ m
        (λ _. simp (print_literal, print_value_lem, panic_lem) halts)
        λ divides.
          Ends-if _ _ (ltb 16 (reg_size / one)) _ _ m (λ _. panic-Ends _ _ m)
            λ fits.
              Ends-bind _ _ _
                (read_regions (reg_size / one) 0 address_cells size_cells text 0 array) _ m
                (read_regions-Ends address_cells size_cells a s (reg_size / one) 0 0 array m
                  (Readable-le S text _ _ (ground arith) h) (ground arith) tt)
                λ regions n safe.
                  (ground arith, ground arith, safe.0 ∙ k, rw (zero-add (reg_size / one)) at safe.1)

  -- However the object ends: a stop is one that `S` allows.
  pub physical_memory_regions-Readable :
      (array : List MemoryRegion) (address_cells size_cells : ℕ) (reg_size : ℕ) (m : Machine)
      → Readable S text reg_size
      → length array ≡ 16
      → Ends S
          (SafeRegions address_cells size_cells reg_size)
          (physical_memory_regions array address_cells size_cells text reg_size m).0
  unfolding physical_memory_regions
  physical_memory_regions-Readable array address_cells size_cells reg_size m h k =
      Ends-if _ _ (ltb reg_size address_cells || ltb reg_size size_cells) _ _ m
        (λ _. panic-Ends _ _ m)
        λ _.
          Ends-if _ _ (ltb address_cells 1 || ltb size_cells 1 || ltb reg_size 1) _ _ m
            (λ _. panic-Ends _ _ m)
            λ positive.
              Ends-if _ _ (ltb 2 address_cells || ltb 2 size_cells) _ _ m (λ _. panic-Ends _ _ m)
                λ small.
                  decode_regions-Ends address_cells size_cells array reg_size m (ground arith)
                    (ground arith) h k

-- On any bytes, with the register's bytes in the object and an array of sixteen, the decoding reads
-- and writes within its objects and ends: either the processor is halted by a panic, or the regions
-- found are at most sixteen, take up the register exactly, and each is not empty and ends below
-- 2 ^ 64.
pub physical_memory_regions-Ends :
    (array : List MemoryRegion) (address_cells size_cells : ℕ) (text : Bytes) (reg_size : ℕ)
    (m : Machine)
    → reg_size ≤ length text
    → length array ≡ 16
    → Ends
        (λ s. s ≡ halted)
        (SafeRegions address_cells size_cells reg_size)
        (physical_memory_regions array address_cells size_cells text reg_size m).0
physical_memory_regions-Ends array address_cells size_cells text reg_size m h =
    physical_memory_regions-Readable _ refl text array address_cells size_cells reg_size m (inl h)
