-- ===== src/Frame/Search.antt =====
-- src/Frame.h: the map from code addresses to FDEs, FindFDE and CreateFDEPCMap.
use men_debugger.Base.{
  ◌*◌, ℕ, zero, suc, ◌+◌, ◌-◌, ◌/◌, ◌%◌, ◌==◌, leb, ltb, if◌then◌else◌, true, false, ◌&&◌, ◌||◌,
  not,
}
use men_debugger.Machine.{Fault, Memory, Result, ok, err, read_le, u32_mod}
use men_debugger.Arena.{Arena, TempMem, arena_push, open_arena}
use men_debugger.Dwarf.Value.{
  get_initial_length_and_advance, get_value_arch_format_and_advance, dwarf_32_bits, dwarf_64_bits,
  max_u64,
}

-- FDE_PC_Map: two arrays of `size` entries.
pub record FdePcMap : Type 0 where
  pub size : ℕ
  pub fde_addresses : ℕ → ℕ
  pub pcs : ℕ → ℕ

abbrev pub pc_at : FdePcMap → ℕ → Result ℕ
pc_at map i = if ltb i map.size then ok (map.pcs i) else err Fault.undefined

-- The loop of FindFDE, on fuel. `low`, `high` and `index` are u32.
unfoldable pub find_fde_loop : ℕ → FdePcMap → ℕ → ℕ → ℕ → Result ℕ
find_fde_loop zero map pc low high = err Fault.out_of_fuel
find_fde_loop (suc fuel) map pc low high =
    let index = (low + high) % u32_mod / 2 in
    let left = find_fde_loop fuel map pc low ((index + u32_mod - 1) % u32_mod) in
    let right = find_fde_loop fuel map pc ((index + 1) % u32_mod) high in
    if leb low high
    then (elim (pc_at map index) [
      | err f ↦ err f
      | ok at ↦
          if leb at pc
          then (elim (pc_at map ((index + 1) % u32_mod)) [
            | err f ↦ err f
            | ok next ↦ if leb pc next then ok (map.fde_addresses index) else right
          ])
          else left
    ])
    else err Fault.assert_failed

-- FindFDE
unfoldable pub find_fde : FdePcMap → ℕ → Result ℕ
find_fde map pc = find_fde_loop (map.size + 1) map pc 0 map.size

abbrev pub put : (ℕ → ℕ) → ℕ → ℕ → ℕ → ℕ
put f i v j = if i == j then v else f j

-- SWAP of the entries `i` and `i + 1`.
abbrev pub swap_next : (ℕ → ℕ) → ℕ → ℕ → ℕ
swap_next f i = put (put f (i + 1) (f i)) i (f (i + 1))

-- The body of the `for`.
abbrev pub sort_step : ℕ → FdePcMap → FdePcMap
sort_step index map =
    if ltb (map.pcs (index + 1)) (map.pcs index)
    then record map {
      pcs = swap_next map.pcs index;
      fde_addresses = swap_next map.fde_addresses index;
    }
    else map

-- `for (index = size - 1; index > 0; --index)`, from an index on.
unfoldable pub sort_pass : ℕ → FdePcMap → FdePcMap
sort_pass zero map = map
sort_pass (suc index) map = sort_pass index (sort_step (suc index) map)

-- The body of `if (format ...)`: the new entry, the pass, and the new size.
unfoldable pub add_fde : FdePcMap → ℕ → ℕ → FdePcMap
add_fde map address pc =
    let sorted = sort_pass (map.size - 1) (record map {
      fde_addresses = put map.fde_addresses map.size address;
      pcs = put map.pcs map.size pc;
    }) in
    record sorted { size = map.size + 1 }

-- The loop of CreateFDEPCMap, on fuel; `room` is the size of the arena that its assertion compares with.
unfoldable pub fde_pc_map_loop : ℕ → ℕ → FdePcMap → Memory → ℕ → Result FdePcMap
fde_pc_map_loop zero room map m p = err Fault.out_of_fuel
fde_pc_map_loop (suc fuel) room map m p = elim (get_initial_length_and_advance m p) [
  | err f ↦ err f
  | ok ((length, format), q) ↦
      if length == 0 then ok map else (elim (get_value_arch_format_and_advance format m q) [
        | err f ↦ err f
        | ok (cie_id, r) ↦
            if (format == dwarf_32_bits && not (cie_id == 0xffffffff))
              || (format == dwarf_64_bits && not (cie_id == max_u64))
            then (elim (ltb map.size room) [
              | false ↦ err Fault.assert_failed
              | true ↦ elim (read_le 8 m r) [
                | err f ↦ err f
                | ok pc ↦ fde_pc_map_loop fuel room (add_fde map p pc) m (q + length)
              ]
            ])
            else fde_pc_map_loop fuel room map m (q + length)
      ])
]

-- CreateFDEPCMap, for a section .debug_frame at `frame` of `size` bytes: the entries, and one of MAX_u64
-- behind them, which take two arrays of the arena. The two temporary arenas are not freed.
unfoldable pub create_fde_pc_map :
    ℕ → TempMem → Arena → FdePcMap → Memory → ℕ → ℕ → Result (FdePcMap × Arena × TempMem)
create_fde_pc_map fuel temp dwarf junk m frame size = elim (open_arena temp (size / 2)) [
  | err f ↦ err f
  | ok (addresses, addresses_arena, temp1) ↦ elim (open_arena temp1 (size / 2)) [
    | err f ↦ err f
    | ok (pcs, pcs_arena, temp2) ↦
        elim (fde_pc_map_loop fuel pcs_arena.size (record junk { size = 0 }) m frame) [
          | err f ↦ err f
          | ok map ↦ elim (arena_push dwarf (8 * (map.size + 1))) [
            | err f ↦ err f
            | ok (array, dwarf1) ↦ elim (arena_push dwarf1 (8 * (map.size + 1))) [
              | err f ↦ err f
              | ok (array', dwarf2) ↦
                  let whole : FdePcMap = record {
                    size = map.size + 1;
                    fde_addresses = put map.fde_addresses map.size max_u64;
                    pcs = put map.pcs map.size max_u64;
                  } in
                  ok (whole, dwarf2, temp2)
            ]
          ]
        ]
  ]
]
