-- ===== src/Delta/Errors.antt =====
-- The error values of delta/ and delta/internal/lz, one for each place that makes one. The numbers
-- in their texts are left out.
pub data Error : Type 0 where
  -- buf.go
  bad_uvarint bad_varint above_max short_byte short_take trailing : Error
  -- lz.go
  no_literal_count no_copy_count no_seek too_many_literals : Error
  seek_without_copy empty_op copy_out_of_range : Error
  -- correct.go
  size_mismatch wrong_file past_the_end spans_past_the_end : Error
  few_literals control_left literals_left : Error
  -- container.go
  bad_magic frame_gap patch_size_wrong frame_hash_wrong frame_broken : Error
  -- plain.go
  too_large run_behind run_left bad_match bad_literals plain_incomplete : Error
  -- delta.go and go127.go
  unsupported old_size_wrong old_hash_wrong unsupported_transform : Error
  new_size_wrong new_hash_wrong : Error
  -- go127.go and layout.go
  not_go tables_wrong base_differs : Error
