-- ===== src/Lifecycle/Boots.antt =====
-- kernel/Main/Lifecycle.c and Main.c on the blob of a device tree: the kernel boots into its client.
use charcoalos.Shell.Handlers.{Build, Processor}
use charcoalos.DeviceTree.Parse.RoundTrip.{parsed, parse_device_tree_blob-IsBlobOf, IsBlobOf}
use charcoalos.DeviceTree.Property.Roles.{IsHarmless}
use charcoalos.DeviceTree.Encode.{Node}
use charcoalos.Interrupt.Start.{print_timer_diagnostics-Prints}
use charcoalos.Panic.{kernel_halt}
use charcoalos.DeviceTree.Types.{HardwareInfo, Blob, DtbHeader}
use charcoalos.DeviceTree.Parse.{parse_device_tree_blob}
use charcoalos.Interrupt.Armed.{timer_effects, initialize_timer-timer_effects}
use charcoalos.Interrupt.{print_timer_diagnostics, Platform}
use charcoalos.Console.Print.{shown, emit-nil, print_literal}
use charcoalos.Console.Hex.{print_value_lem, hex_digits}
use charcoalos.Memory.{MemoryRegion}
use charcoalos.Lifecycle.{
  kmain, print_regions, kernel_init, set_default_client, kernel_set_foreground_client, kernel_run,
  run_client,
}
use charcoalos.Prelude.{
  ℕ, ◌+◌, ◌≡◌, refl, sym, ap, ◌∙◌, Option, none, some, List, [], ◌∷◌, ◌++◌, append_assoc, length,
  drop, Bytes, get_elem?-append, length-snoc,
}
use charcoalos.Machine.{
  Machine, emit-emit, returned, emit, Client, run_default_foreground_client, Kernel, ◌>>◌,
}

-- What the kernel prints of the memory regions.
abbrev pub region_report : List MemoryRegion → Bytes
region_report [] = []
region_report (r ∷ rs) =
    ((((shown "Physical memory region at base address 0x" ++ hex_digits 8 r.base_address)
          ++ shown " with size 0x")
        ++ hex_digits 8 r.size)
      ++ shown " bytes\n")
    ++ region_report rs

pub print_regions_lem :
    (rs front back : List MemoryRegion) (m : Machine)
    → print_regions (length rs) (length front) (front ++ (rs ++ back)) m
      ≡ (returned tt, emit m (region_report rs))
unfolding print_regions
print_regions_lem [] front back m = ap (λ (n : Machine). (returned tt, n)) (sym (emit-nil m))
print_regions_lem (r ∷ rs) front back m =
    let there = get_elem?-append {0} front (rs ++ back) r in
    let later = print_regions_lem rs (front ++ (r ∷ [])) back in
    let shifted : (n : Machine)
        → print_regions (length rs) (length front + 1) (front ++ (r ∷ (rs ++ back))) n
          ≡ (returned tt, emit n (region_report rs)) =
      λ n. rw (length-snoc front r, ← append_assoc front (r ∷ []) (rs ++ back)) (later n) in
    simp (there, print_literal, print_value_lem, shifted, emit-emit) refl

-- The client that runs: the one that has been set, and else the shell.
abbrev pub client_of : Option Client → Client
client_of none = run_default_foreground_client
client_of (some client) = client

-- The machine when the kernel has started: what it printed ends with the regions, the timer has been
-- started once, and there is a client.
abbrev pub booted : Platform → List MemoryRegion → Bytes → Machine → Machine
booted p regions before m = record m {
  output = m.output ++ (before ++ (region_report regions ++ shown "\nWelcome to CharcoalOS.\n"));
  effects = m.effects ++ timer_effects p m;
  foreground_client = some (client_of m.foreground_client);
}

pub set_default_client_lem :
    (client : Option Client) (m : Machine)
    → set_default_client (record m { foreground_client = client })
      ≡ (returned tt, record m { foreground_client = some (client_of client) })
unfolding set_default_client kernel_set_foreground_client
set_default_client_lem none m = refl
set_default_client_lem (some client) m = refl

-- The machine when the parser is called.
abbrev pub timer_started : Platform → Bytes → Machine → Machine
timer_started p first m =
    emit
      (emit
        (record (emit (emit m first) (shown "Initializing timer... ")) {
          effects = m.effects ++ timer_effects p m;
        })
        (shown "done.\n"))
      (shown "Parsing device tree blob for hardware information...\n")

-- The steps of the start, one behind the other.
kernel_init_lem :
    (p : Platform) (hw_info info : HardwareInfo) (b : Blob) (regions back : List MemoryRegion)
    (first second : Bytes) (m : Machine)
    → print_timer_diagnostics p m ≡ (returned tt, emit m first)
    → info.physical_memory_region_count ≡ length regions
    → info.physical_memory_regions ≡ regions ++ back
    → parse_device_tree_blob (some hw_info) b (timer_started p first m)
      ≡ (returned info, emit (timer_started p first m) second)
    → kernel_init p hw_info b m ≡ (
      returned tt,
      booted p regions
          ((((first ++ shown "Initializing timer... ") ++ shown "done.\n")
              ++ shown "Parsing device tree blob for hardware information...\n")
            ++ second)
          m,
    )
unfolding kernel_init
kernel_init_lem p hw_info info b regions back first second m diagnosed count listed parsing =
    let n = emit (timer_started p first m) second in
    let n' = emit n (region_report regions) in
    let reported : print_regions info.physical_memory_region_count 0 info.physical_memory_regions n
        ≡ (returned tt, n') =
      ap (λ (k : ℕ). print_regions k 0 info.physical_memory_regions n) count
      ∙ ap (λ (rs : List MemoryRegion). print_regions (length regions) 0 rs n) listed
      ∙ print_regions_lem regions [] back n in
    let timed =
      initialize_timer-timer_effects p (emit (emit m first) (shown "Initializing timer... ")) in
    let welcome = shown "\nWelcome to CharcoalOS.\n" in
    let before =
      (((first ++ shown "Initializing timer... ") ++ shown "done.\n")
        ++ shown "Parsing device tree blob for hardware information...\n")
      ++ second in
    let assoc : (emit n' welcome).output
        ≡ m.output ++ (before ++ (region_report regions ++ welcome)) =
      simp append_assoc refl in
    rw diagnosed (
      rw print_literal (
        rw timed (
          rw print_literal (
            rw print_literal (
              rw parsing (
                rw reported (
                  rw print_literal (
                    set_default_client_lem m.foreground_client (emit n' welcome)
                    ∙ ap
                        (λ (o : Bytes).
                          (returned tt, record (booted p regions [] m) { output = o }))
                        assoc))))))))

-- On a blob of a device tree.
kernel_init-booted :
    (p : Platform) (b : Blob) (h : DtbHeader) (rs : List MemoryRegion) (offset_of : Bytes → ℕ)
    (a n : ℕ) (regions : List MemoryRegion) (tree : Node) (hw_info : HardwareInfo) (m : Machine)
    → IsBlobOf b h rs offset_of a n regions tree
    → IsHarmless b.null_page
    → length hw_info.physical_memory_regions ≡ 16
    → length hw_info.reserved_region_base_addresses ≡ 255
    → length hw_info.reserved_region_sizes ≡ 255
    → (before : Bytes) × (kernel_init p hw_info b m ≡ (returned tt, booted p regions before m))
kernel_init-booted p b h rs offset_of a n regions tree hw_info m blob harmless sixteen bases sizes =
    let (first, diagnosed) = print_timer_diagnostics-Prints p m in
    let (second, parsing) =
      parse_device_tree_blob-IsBlobOf b h rs offset_of a n regions tree hw_info
        (timer_started p first m) blob harmless sixteen bases sizes in
    (
      _,
      kernel_init_lem p hw_info (parsed h a n regions rs hw_info) b regions
          (drop (length regions) hw_info.physical_memory_regions) first second m diagnosed refl refl
          parsing,
    )

-- The kernel boots on the blob of a device tree, on either platform: `kmain` comes to its client, the one
-- that has been set or else the shell, and halts if the client returns. Up to there it started the timer
-- once and wrote no other device, and the last that it printed is each memory region of the tree in
-- order, with its address and size in hexadecimal, and the welcome. The tree and its blob are as
-- for the parser; the arrays of `hw_info` have their lengths, and what stands at address 0 is not
-- the string "memory".
pub kmain-booted :
    {A : Type 0} (p : Platform) (cpu : Processor) (build : Build) (command : Bytes)
    (custom : ℕ → Kernel (Unit {0})) (b : Blob) (h : DtbHeader) (rs : List MemoryRegion)
    (offset_of : Bytes → ℕ) (a n : ℕ) (regions : List MemoryRegion) (tree : Node)
    (hw_info : HardwareInfo) (m : Machine)
    → IsBlobOf b h rs offset_of a n regions tree
    → IsHarmless b.null_page
    → length hw_info.physical_memory_regions ≡ 16
    → length hw_info.reserved_region_base_addresses ≡ 255
    → length hw_info.reserved_region_sizes ≡ 255
    → (before : Bytes) × (kmain p cpu build command custom {A = A} hw_info b m
        ≡ (run_client p cpu build command custom (client_of m.foreground_client) >> kernel_halt)
            (booted p regions before m))
unfolding kmain kernel_run
kmain-booted p cpu build command custom b h rs offset_of a n regions tree hw_info m blob harmless
      sixteen bases sizes =
    let (before, started) =
      kernel_init-booted p b h rs offset_of a n regions tree hw_info m blob harmless sixteen bases
        sizes in
    (before, rw started refl)
