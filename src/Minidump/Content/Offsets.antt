-- ===== src/Minidump/Content/Offsets.antt =====
-- Where the fields stand that the reader unpacks.
use crashkit.Prelude.{◌≡◌, refl, some, [], ◌∷◌}
use crashkit.Prelude.Bytes.{◌=b◌}
use crashkit.Minidump.Layout.{uint, size_of, member, find_field, struct_field}
use crashkit.Minidump.Extensions.{
  minidump_annotation, minidump_annotation_list, minidump_module_crashpad_info,
  minidump_module_crashpad_info_link, minidump_module_crashpad_info_list, minidump_crashpad_info,
}

-- The offsets of the fields.
pub annotation_name : member ("name" ∷ []) minidump_annotation ≡ some (0, uint 4)
unfolding member find_field struct_field ◌=b◌
annotation_name = refl

pub annotation_type : member ("type" ∷ []) minidump_annotation ≡ some (4, uint 2)
unfolding member find_field struct_field ◌=b◌ size_of
annotation_type = refl

pub annotation_value : member ("value" ∷ []) minidump_annotation ≡ some (8, uint 4)
unfolding member find_field struct_field ◌=b◌ size_of
annotation_value = refl

pub list_count : member ("count" ∷ []) minidump_annotation_list ≡ some (0, uint 4)
unfolding member find_field struct_field ◌=b◌
list_count = refl

pub module_simple :
    member ("simple_annotations" ∷ "Rva" ∷ []) minidump_module_crashpad_info ≡ some (16, uint 4)
unfolding member find_field struct_field ◌=b◌ size_of
module_simple = refl

pub module_objects :
    member ("annotation_objects" ∷ "Rva" ∷ []) minidump_module_crashpad_info ≡ some (24, uint 4)
unfolding member find_field struct_field ◌=b◌ size_of
module_objects = refl

pub link_location :
    member ("location" ∷ "Rva" ∷ []) minidump_module_crashpad_info_link ≡ some (8, uint 4)
unfolding member find_field struct_field ◌=b◌ size_of
link_location = refl

pub links_count : member ("count" ∷ []) minidump_module_crashpad_info_list ≡ some (0, uint 4)
unfolding member find_field struct_field ◌=b◌
links_count = refl

pub info_simple :
    member ("simple_annotations" ∷ "Rva" ∷ []) minidump_crashpad_info ≡ some (40, uint 4)
unfolding member find_field struct_field ◌=b◌ size_of
info_simple = refl

pub info_modules : member ("module_list" ∷ "Rva" ∷ []) minidump_crashpad_info ≡ some (48, uint 4)
unfolding member find_field struct_field ◌=b◌ size_of
info_modules = refl
