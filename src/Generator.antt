-- ===== src/Generator.antt =====
-- src/gz/Generator.cc: `replaceAll` and `Generator::Generate`.
pub mod ReplaceAll
pub mod Substitute
pub mod Filenames
pub mod Directives
mod Tests
use vcpkg_test.Prelude.{
  ℕ, zero, suc, ◌+◌, ◌-◌, ◌%◌, ◌^◌, Bool, true, Option, none, some, List, [], ◌∷◌, ◌++◌, Bytes,
  codes, ◌>>=◌, length,
}
use vcpkg_test.Text.{find, rfind, replace}

-- `for (size_t i = 0; (i = src.find(old, i)) != npos;) { src.replace(…); i += …; }`, on fuel.
unfoldable pub replace_loop : ℕ → Bytes → Bytes → ℕ → Bytes → Option Bytes
replace_loop zero old new i src = none
replace_loop (suc fuel) old new i src = elim (find src old i) [
  | none ↦ some src
  | some p ↦
      replace src p (length old) new
      >>= replace_loop fuel old new ((p + length new + 2 ^ 64 - length old + 1) % 2 ^ 64)
]

unfoldable pub replace_all : Bytes → Bytes → Bytes → Option Bytes
replace_all src old new = replace_loop (length src + 2) old new 0 src

-- What the plugin reads of a `FileDescriptor`: its name, and the names of its messages.
pub record FileDescriptor : Type 0 where
  pub name : Bytes
  pub message_types : List Bytes

-- The calls of the generator context and of the printers, in order.
pub data Event : Type 0 where
  open_for_insert : Bytes → Bytes → Event
  print : Bytes → Bytes → Bytes → Event

pub data Status : Type 0 where
  returned : Bool → Status
  out_of_range : Status
  no_message_type : Status

pub record Outcome : Type 0 where
  pub events : List Event
  pub status : Status

abbrev pub delim : Bytes
delim = codes ".proto"

-- `filename.replace(filename.rfind(delim), delim.size(), suffix)`
unfoldable pub output_filename : Bytes → Bytes → Option Bytes
output_filename name suffix = do pos ← rfind name delim; replace name pos (length delim) suffix

abbrev print_includes : Bytes → Event
print_includes text = print text (codes "name") (codes "includes")

abbrev pub header_includes : Bytes → List Event
header_includes header_filename =
    open_for_insert header_filename (codes "includes")
    ∷ print_includes (codes "#ifndef _MSC_VER\n")
    ∷ print_includes (codes "#pragma GCC system_header\n")
    ∷ print_includes (codes "#else\n")
    ∷ print_includes (codes "#pragma warning(push)\n")
    ∷ print_includes (codes "#pragma warning(disable: 4244 4267 4100 4244 4512")
    ∷ print_includes (codes " 4127 4068 4275 4251)\n")
    ∷ print_includes (codes "#endif\n")
    ∷ print_includes (codes "#ifdef __linux__\n")
    ∷ print (codes "#include <sys/sysmacros.h>\n") (codes "name") (codes "include")
    ∷ print_includes (codes "#endif\n")
    ∷ print_includes (codes "#include <memory>\n")
    ∷ print_includes (codes "#include <ignition/msgs/Export.hh>\n")
    ∷ []

abbrev pub source_prologue : Bytes → List Event
source_prologue source_filename =
    open_for_insert source_filename (codes "includes")
    ∷ print_includes (codes "#include \"ignition/msgs/Factory.hh\"\n")
    ∷ print_includes (codes "#ifndef _MSC_VER\n")
    ∷ print_includes (codes "#pragma GCC diagnostic ignored \"-Wshadow\"\n")
    ∷ print_includes (codes "#pragma GCC diagnostic ignored \"-Wfloat-equal\"\n")
    ∷ print_includes (codes "#pragma GCC diagnostic ignored \"-Wunused-parameter\"\n")
    ∷ print_includes (codes "#pragma GCC diagnostic ignored \"-Wdeprecated-declarations\"\n")
    ∷ print_includes (codes "#else\n")
    ∷ print_includes (codes "#pragma warning(disable: 4244 4267 4100 4244 4512")
    ∷ print_includes (codes " 4127 4068)\n")
    ∷ print_includes (codes "#endif\n")
    ∷ []

unfoldable pub factory : Bytes → Bytes
factory message =
    codes "IGN_REGISTER_STATIC_MSG(\"ign_msgs."
    ++ (message ++ (codes "\", " ++ (message ++ codes ")")))

unfoldable pub ptr_types : Bytes → Bytes
ptr_types message =
    (codes "typedef std::unique_ptr<"
      ++ (message ++ (codes "> " ++ (message ++ codes "UniquePtr;\n"))))
    ++ ((codes "typedef std::unique_ptr<const "
          ++ (message ++ (codes "> Const" ++ (message ++ codes "UniquePtr;\n"))))
        ++ ((codes "typedef std::shared_ptr<"
              ++ (message ++ (codes "> " ++ (message ++ codes "SharedPtr;\n"))))
            ++ (codes "typedef std::shared_ptr<const "
                ++ (message ++ (codes "> Const" ++ (message ++ codes "SharedPtr;\n"))))))

abbrev pub warning_pop : Bytes
warning_pop = codes "#ifdef _MSC_VER\n" ++ (codes "#pragma warning(pop)\n" ++ codes "#endif")

abbrev pub epilogue : Bytes → Bytes → List Event
epilogue header_filename message =
    print_includes (factory message)
    ∷ open_for_insert header_filename (codes "namespace_scope")
    ∷ print (ptr_types message) (codes "name") (codes "namespace_scope")
    ∷ open_for_insert header_filename (codes "global_scope")
    ∷ print warning_pop (codes "name") (codes "global_scope")
    ∷ []

-- What follows the two file names: `message_type(0)` must be there.
abbrev pub insertions : Bytes → Bytes → List Bytes → Outcome
insertions header_filename source_filename [] = record {
  events = header_includes header_filename ++ source_prologue source_filename;
  status = no_message_type;
}
insertions header_filename source_filename (message ∷ _) = record {
  events =
      header_includes header_filename
      ++ (source_prologue source_filename ++ epilogue header_filename message);
  status = returned true;
}

abbrev pub with_filenames : Option Bytes → Option Bytes → List Bytes → Outcome
with_filenames none source types = record { events = []; status = out_of_range }
with_filenames (some header) none types = record { events = []; status = out_of_range }
with_filenames (some header) (some source) types = insertions header source types

unfoldable pub generate : FileDescriptor → Outcome
generate file =
    with_filenames (output_filename file.name (codes ".pb.h"))
      (output_filename file.name (codes ".pb.cc")) file.message_types
