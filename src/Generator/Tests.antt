-- ===== src/Generator/Tests.antt =====
-- The plugin on concrete inputs.
use vcpkg_test.Prelude.{
  ◌≡◌, ◌⊎◌, refl, Option, none, some, Bool, true, [], ◌∷◌, ◌++◌, Bytes, codes, arith,
}
use vcpkg_test.Text.{starts_with, find, find_from, rfind, replace}
use vcpkg_test.Generator.{
  replace_all, replace_loop, generate, returned, output_filename, delim, out_of_range,
  FileDescriptor,
}
use vcpkg_test.Generator.Filenames.{
  opened, generate-out_of_range, LastProto, Inserted, generate-Inserted,
}
use vcpkg_test.Generator.ReplaceAll.{replace_all_total, replace_all-first}
use vcpkg_test.Generator.Directives.{Insertions, generate-KeepsOnMsvc}
use vcpkg_test.Generator.Substitute.{replace_all-substitute, substitute_from}

ran : Bytes → Bytes → Bytes → Option Bytes
unfolding replace_all replace_loop find find_from replace
ran = replace_all

-- The second match is not replaced: the position of the next search wraps.
second_left : ran (codes "abcabc") (codes "abc") [] ≡ some (codes "abc")
unfolding ran
second_left = refl

-- A match across the end of an inserted text is replaced too.
across : ran (codes "abb") (codes "ab") (codes "xa") ≡ some (codes "xxa")
unfolding ran
across = refl

dots : ran (codes "a.b.c") (codes ".") (codes "::") ≡ some (codes "a::b::c")
unfolding ran
dots = refl

-- The last `.proto` of a name need not be at its end.
inner_proto : output_filename (codes "a.proto.txt") (codes ".pb.h") ≡ some (codes "a.pb.h.txt")
unfolding output_filename rfind replace
inner_proto = refl

replace_all_total_example :
    (r : Bytes) × (replace_all (codes "abcabc") (codes "abc") (codes "ab") ≡ some r)
replace_all_total_example =
    replace_all_total (codes "abcabc") (codes "abc") (codes "ab") (omega arith)

abc_found : find (codes "abcabc") (codes "abc") 0 ≡ some 0
unfolding find find_from
abc_found = refl

replace_all-first_example : replace_all (codes "abcabc") (codes "abc") [] ≡ some (codes "abc")
replace_all-first_example =
    replace_all-first [] (codes "abc") [] (codes "abc") abc_found (omega arith) (omega arith)

replace_all-substitute_example :
    replace_all (codes "abcab") (codes "ab") (codes "xyz")
    ≡ some (substitute_from b'a' (codes "b") (codes "xyz") 0 (codes "abcab"))
replace_all-substitute_example =
    replace_all-substitute (codes "abcab") b'a' (codes "b") (codes "xyz") refl (omega arith)
      (omega arith)

abbrev text_file : FileDescriptor
text_file = record { name = codes "a.txt"; message_types = codes "A" ∷ [] }

no_delim : rfind (text_file.name) delim ≡ none
unfolding rfind
no_delim = refl

text_file_out_of_range : generate text_file ≡ record { events = []; status = out_of_range }
text_file_out_of_range = generate-out_of_range text_file no_delim

-- The last `.proto` gives way, and what stands behind it is kept.
abbrev odd_file : FileDescriptor
odd_file = record { name = codes "a.proto.proto.v2"; message_types = [] }

odd_names :
    (opened (generate odd_file).events)
    ≡ (codes "a.proto.pb.h.v2", codes "includes")
      ∷ (codes "a.proto.pb.cc.v2", codes "includes")
      ∷ []
unfolding generate output_filename rfind replace
odd_names = refl

generate-Inserted_example :
    (((l r : Bytes) → ¬ (odd_file.name ≡ l ++ (delim ++ r)))
      × (generate odd_file ≡ record { events = []; status = out_of_range }))
    ⊎ ((l : Bytes) × (r : Bytes) × LastProto odd_file.name l r
        × Inserted
            (l ++ (codes ".pb.h" ++ r))
            (l ++ (codes ".pb.cc" ++ r))
            odd_file.message_types
            (generate odd_file))
generate-Inserted_example = generate-Inserted odd_file

abbrev msvc : Bytes → Bool
msvc name = starts_with (codes "_MSC_VER") name

abbrev time_file : FileDescriptor
time_file = record { name = codes "time.proto"; message_types = codes "Time" ∷ [] }

time_file_succeeds : (generate time_file).status ≡ returned true
unfolding generate output_filename rfind replace
time_file_succeeds = refl

generate-KeepsOnMsvc_example :
    Insertions msvc
      (output_filename time_file.name (codes ".pb.h"))
      (output_filename time_file.name (codes ".pb.cc"))
      (generate time_file)
generate-KeepsOnMsvc_example = generate-KeepsOnMsvc time_file msvc time_file_succeeds
