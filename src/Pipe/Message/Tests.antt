-- ===== src/Pipe/Message/Tests.antt =====
-- Messages of concrete values.
use luasys.Base.{ℕ, ◌≤◌, ◌≡◌, refl, true, List, [], ◌∷◌, map, arith}
use luasys.Pipe.{Memory, copy_out}
use luasys.Pipe.Ring.{IsMessage}
use luasys.Pipe.Message.{Repr, Value, nil, boolean, number, string, userdata, built, build, parse}
use luasys.Pipe.Message.RoundTrip.{received, parse-build}
use luasys.Pipe.Message.Total.{ArePrimitive, build-built}

-- Numbers and pointers that one byte is enough for.
abbrev low_byte : List ℕ → ℕ
low_byte [] = 0
low_byte (b ∷ bs) = b

abbrev one_byte : Repr ℕ
one_byte = record {
  to_bytes = λ a. a ∷ 0 ∷ 0 ∷ 0 ∷ 0 ∷ 0 ∷ 0 ∷ 0 ∷ [];
  of_bytes = low_byte;
  width = λ a. refl;
  back = λ a. refl;
}

abbrev values : List (Value ℕ ℕ)
values = string (97 ∷ 98 ∷ []) ∷ number 7 ∷ boolean true ∷ nil ∷ userdata 5 ∷ []

abbrev zeros : Memory
zeros a = 0

values-ArePrimitive : ArePrimitive one_byte one_byte values
values-ArePrimitive = ((λ h. cc), ((λ h. cc), ((λ h. cc), ((λ h. cc), ((λ h. cc), tt)))))

build-built_example : (n : ℕ) × ((m : Memory) × (build one_byte one_byte values zeros ≡ built n m))
build-built_example = build-built one_byte one_byte values zeros values-ArePrimitive (omega arith)

message : (n : ℕ) × ((m : Memory) × (build one_byte one_byte values zeros ≡ built n m))
message = build-built one_byte one_byte values zeros values-ArePrimitive (omega arith)

parse-build_example :
    (parse one_byte one_byte message.1.0 ≡ map received values)
    × IsMessage (copy_out message.1.0 0 message.0)
    × (message.0 ≤ 510)
parse-build_example = parse-build one_byte one_byte values zeros message.1.0 message.0 message.1.1
