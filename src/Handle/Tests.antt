-- ===== src/Handle/Tests.antt =====
-- A table of two slots through a few operations, and the properties of the table applied to it.
use layer_mount.Base.{ℕ, ◌≡◌, refl, ◌<◌, true, none, some, List, [], ◌∷◌, arith}
use layer_mount.Handle.{
  HandleTable, new_table, allocate, reserve, free, resolve, encode, decode_magic,
}
use layer_mount.Handle.{decode_generation, decode_slot}
use layer_mount.Handle.Encoding.{decode-encode}
use layer_mount.Handle.Validity.{IsTable}
use layer_mount.Handle.Operations.{Operation, run, step, allocation, reservation}
use layer_mount.Handle.Operations.{run-new_table-IsTable}
use layer_mount.Handle.Lifetime.{free-resolve}

decode-encode_example :
    (decode_magic (encode 7 1 2) ≡ 7)
    × (decode_generation (encode 7 1 2) ≡ 1)
    × (decode_slot (encode 7 1 2) ≡ 2)
    × (encode 7 1 2 < 18446744073709551616)
decode-encode_example = decode-encode 7 1 2 (omega arith) (omega arith) (omega arith)

abbrev some_operations : List (Operation ℕ)
some_operations = allocation (some 10) ∷ reservation ∷ allocation (some 20) ∷ []

run-new_table-IsTable_example : IsTable (run 7 (new_table 2) some_operations)
run-new_table-IsTable_example = run-new_table-IsTable 7 2 some_operations

-- The handle of the first slot's first generation.
abbrev first : ℕ
unfolding encode
first = encode 7 1 1

abbrev filled : HandleTable ℕ
unfolding run
filled = run 7 (new_table 2) some_operations

free-resolve_example :
    ((free 7 true filled first).0 ≡ some 10)
    × (resolve 7 (run 7 (free 7 true filled first).1 (allocation (some 30) ∷ [])) first ≡ none)
unfolding filled run resolve first step allocate reserve new_table
free-resolve_example =
    free-resolve 7 true filled first 10 (allocation (some 30) ∷ [])
      (run-new_table-IsTable 7 2 some_operations) refl
