-- ===== src/SharedMemory/Examples.antt =====
-- The theorems at a machine of 64 megabytes, and at objects that two processes have mapped.
use asterisk.Base.{ℕ, ◌≡◌, refl, true, List, [], ◌∷◌, none, some, ℤ, pos}
use asterisk.PageMemory.{set_pageframe_used}
use asterisk.PageMemory.Ownership.{History-Owned, started}
use asterisk.PageMemory.Booted.{zeros, booted, zeros-IsBytes, first_frame}
use asterisk.SharedMemory.{
  State, Call, returned, new_object, with_frames, changed, mapping, acquire_all, object_at, change,
  remove, release_all, sharedmemory_create, sharedmemory_get_node, sharedmemory_ftruncate,
  sharedmemory_unlink, sharedmemory_destroy_if_suitable, sharedmemory_destroy,
  sharedmemory_unmap_for_process_all, unmap_each, sharedmemory_unmap_if_exists, unmap_search,
  drop_mapping,
}
use asterisk.SharedMemory.Kept.{Kept}
use asterisk.SharedMemory.Ownership.{Run, created, truncated, unlinked, Run-Kept}
use asterisk.SharedMemory.Mappings.{mappings}
use asterisk.SharedMemory.Unmapped.{unmap_for_process_all-mappings}

abbrev empty : State
empty = record {
  g_shm_list = [];
  paging = record { frames = booted; entries = λ p i. 0; cr3 = 0xC01000 };
}

empty-Kept : Kept 65536 [] empty
empty-Kept = record {
  frames = History-Owned zeros 65536 zeros-IsBytes started;
  needed = refl;
  apart = refl;
}

abbrev buffer_name : List ℕ
buffer_name = b'b' ∷ b'u' ∷ b'f' ∷ []

abbrev with_buffer : State
with_buffer = record empty { g_shm_list = new_object 5 buffer_name ∷ [] }

create_buffer : sharedmemory_create empty 5 buffer_name ≡ returned (some 5, with_buffer)
unfolding sharedmemory_create sharedmemory_get_node
create_buffer = refl

abbrev with_page : State
with_page =
    with_frames
      (changed with_buffer (record (new_object 5 buffer_name) {
        node_length = 100;
        physical_address_list = 0x1000000 ∷ [];
      }))
      (set_pageframe_used booted 4096)

truncate_buffer : sharedmemory_ftruncate with_buffer 5 (pos 100) ≡ returned (pos 0, with_page)
unfolding sharedmemory_ftruncate acquire_all object_at
truncate_buffer = rw (first_frame, sharedmemory_ftruncate) refl

abbrev unlinked_buffer : Call (ℤ × State)
unlinked_buffer = sharedmemory_unlink with_page 5

abbrev without_buffer : State
without_buffer = with_frames empty (release_all (set_pageframe_used booted 4096) (0x1000000 ∷ []))

unlink_buffer : sharedmemory_unlink with_page 5 ≡ returned (pos 0, without_buffer)
unfolding sharedmemory_unlink sharedmemory_destroy_if_suitable sharedmemory_destroy change object_at
    remove
unlink_buffer = refl

object_at-none : object_at [] 5 ≡ none
unfolding object_at
object_at-none = refl

Run-Kept_example : Kept 65536 [] without_buffer
Run-Kept_example = Run-Kept 65536 empty-Kept (
    unlinked 5
      (truncated 5 (pos 100) (created 5 buffer_name started_here object_at-none create_buffer)
        truncate_buffer)
      unlink_buffer)
  where
    started_here : Run empty [] empty []
    started_here = Run.started

-- Process 1 has both objects mapped, one of them twice, and process 2 one of them.
abbrev shared : State
shared = record empty {
  g_shm_list =
      record (new_object 5 buffer_name) {
        mmapped_list =
            mapping 1 0x80000000 1 ∷ mapping 2 0x80000000 1 ∷ mapping 1 0x80001000 1 ∷ [];
      }
      ∷ record (new_object 6 (b'x' ∷ [])) {
        mmapped_list = mapping 1 0x80000000 1 ∷ [];
        marked_unlink = true;
      }
      ∷ [];
}

unmap_for_process_all-mappings_example :
    mappings (sharedmemory_unmap_for_process_all shared 1).g_shm_list 1 0x80000000 ≡ 0
unfolding object_at
unmap_for_process_all-mappings_example =
    unmap_for_process_all-mappings shared 1 1 0x80000000 (refl, (refl, refl))

-- The object that was marked is destroyed, the other stays.
left_objects :
    (sharedmemory_unmap_for_process_all shared 1).g_shm_list
    ≡ record (new_object 5 buffer_name) { mmapped_list = mapping 2 0x80000000 1 ∷ [] } ∷ []
unfolding sharedmemory_unmap_for_process_all unmap_each sharedmemory_unmap_if_exists unmap_search
    drop_mapping sharedmemory_destroy_if_suitable sharedmemory_destroy change remove
left_objects = refl
