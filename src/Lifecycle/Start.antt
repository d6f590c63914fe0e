-- ===== src/Lifecycle/Start.antt =====
-- kernel/Main/Lifecycle.c, `kernel_init`, on any blob.
use charcoalos.DeviceTree.Reserved.Entry.{placed}
use charcoalos.Lifecycle.Boots.{
  client_of, print_regions_lem, region_report, set_default_client_lem, timer_started,
}
use charcoalos.DeviceTree.Parse.Sound.{parse_device_tree_blob-Ends}
use charcoalos.DeviceTree.Parse.{parse_device_tree_blob}
use charcoalos.Console.{console_print, literal}
use charcoalos.Console.Print.{print_literal, shown}
use charcoalos.DeviceTree.Types.{HardwareInfo, Blob}
use charcoalos.DeviceTree.Sound.{IsFilled, Refused, IsPlaced, IsSound}
use charcoalos.Interrupt.Armed.{initialize_timer-timer_effects}
use charcoalos.Interrupt.Start.{print_timer_diagnostics-Prints}
use charcoalos.Machine.Ends.{Ends, Leaves}
use charcoalos.Memory.{MemoryRegion}
use charcoalos.Machine.{◌>>◌, Machine, returned, Outcome, stopped, continue, emit, emit-emit}
use charcoalos.Interrupt.{Platform}
use charcoalos.Lifecycle.{kernel_init, print_regions, set_default_client}
use charcoalos.Prelude.{
  ℕ, zero, suc, ◌≤◌, ◌≡◌, refl, sym, ap, ap₂, ◌∙◌, some, List, [], ◌∷◌, ◌++◌, arith, length, take,
  drop, Bytes,
}

take-drop : (n : ℕ) (regions : List MemoryRegion) → take n regions ++ drop n regions ≡ regions
take-drop zero regions = refl
take-drop (suc n) [] = refl
take-drop (suc n) (r ∷ regions) = ap (◌∷◌ r) (take-drop n regions)

length-take :
    (n : ℕ) (regions : List MemoryRegion) → n ≤ length regions → length (take n regions) ≡ n
length-take zero regions h = refl
length-take (suc n) [] h = absurd (omega arith)
length-take (suc n) (r ∷ regions) h = ap suc (length-take n regions (omega arith))

-- The regions that count are printed, and no others are read.
print_regions-take :
    (count : ℕ) (regions : List MemoryRegion) (m : Machine)
    → count ≤ length regions
    → print_regions count 0 regions m ≡ (returned tt, emit m (region_report (take count regions)))
print_regions-take count regions m h =
    sym (
      ap₂ (λ (k : ℕ) (rs : List MemoryRegion). print_regions k 0 rs m) (length-take count regions h)
        (take-drop count regions))
    ∙ print_regions_lem (take count regions) [] (drop count regions) m

-- How the start ends, by how the parse of the device tree ended: a stop is handed on; behind a result,
-- the regions that it counts and the welcome are printed, and there is a client to run.
abbrev pub welcomed : Outcome HardwareInfo × Machine → Outcome (Unit {0}) × Machine
welcomed (stopped s, n) = (stopped s, n)
welcomed (returned info, n) = (
  returned tt,
  record n {
    output =
        n.output
        ++ (region_report (take info.physical_memory_region_count info.physical_memory_regions)
            ++ shown "\nWelcome to CharcoalOS.\n");
    foreground_client = some (client_of n.foreground_client);
  },
)

-- A panic, or a read outside of the blob, or information that is sound.
abbrev pub ParseEnds : Outcome HardwareInfo × Machine → Type 0
ParseEnds = Leaves (λ s _. Refused s) (λ info _. IsSound info)

Ends-ParseEnds : (r : Outcome HardwareInfo × Machine) → Ends Refused IsSound r.0 → ParseEnds r
Ends-ParseEnds (returned info, n) h = h
Ends-ParseEnds (stopped s, n) h = h

welcome_lem :
    (r : Outcome HardwareInfo × Machine)
    → ParseEnds r
    → continue r.0
        (λ (info : HardwareInfo).
          print_regions info.physical_memory_region_count 0 info.physical_memory_regions
          >> (console_print (literal "\nWelcome to CharcoalOS.\n") >> set_default_client))
        r.1
      ≡ welcomed r
welcome_lem (stopped s, n) h = refl
welcome_lem (returned info, n) h =
    let count = info.physical_memory_region_count in
    let regions = info.physical_memory_regions in
    let report = region_report (take count regions) in
    let welcome = shown "\nWelcome to CharcoalOS.\n" in
    let n' = emit (emit n report) welcome in
    rw (print_regions-take count regions n (ground arith)) (
      rw print_literal (
        set_default_client_lem n.foreground_client n'
        ∙ ap
            (λ (x : Machine).
              (returned tt, record x { foreground_client = some (client_of n.foreground_client) }))
            (emit-emit n report welcome)))

-- On any blob below the last 16 gigabytes of the address space, with the arrays of `hw_info` of their
-- lengths, at most sixteen of its regions counted and each of them usable, the start of the kernel
-- sends some bytes of diagnostics to the console, starts the timer once, and parses the blob. The
-- parse halts in a panic, or faults in a read outside of the blob, and the start stops with it as it
-- left the machine; or the parse returns sound information, and the start then prints exactly the
-- regions that are counted, none of them outside of the array, and the welcome, changes nothing else
-- but to set the client to the shell where none was set, and returns.
pub kernel_init-Starts :
    (p : Platform) (hw_info : HardwareInfo) (dtb : Blob) (m : Machine)
    → IsPlaced dtb
    → IsFilled hw_info
    → (first : Bytes) × ParseEnds
        (parse_device_tree_blob (some hw_info) dtb (timer_started p first m))
      × (kernel_init p hw_info dtb m
          ≡ welcomed (parse_device_tree_blob (some hw_info) dtb (timer_started p first m)))
unfolding kernel_init
kernel_init-Starts p hw_info dtb m placed filled =
    let (first, diagnosed) = print_timer_diagnostics-Prints p m in
    let n = timer_started p first m in
    let timed =
      initialize_timer-timer_effects p (emit (emit m first) (shown "Initializing timer... ")) in
    let ends =
      Ends-ParseEnds (parse_device_tree_blob (some hw_info) dtb n)
        (parse_device_tree_blob-Ends hw_info dtb n placed filled) in
    (
      first,
      ends,
      rw diagnosed (
          rw print_literal (
            rw timed (
              rw print_literal (
                rw print_literal
                  (welcome_lem (parse_device_tree_blob (some hw_info) dtb n) ends))))),
    )
