-- ===== src/Tests.antt =====
-- Concrete runs, and the theorems at concrete inputs. The names of the code stand in one list, so that a
-- test can compute with all of it.
mod Scenario
mod Codec
mod Exchange
mod Requests
mod Arriving
mod Choosing
mod Accepting
mod Announcing
mod Urls
mod Machines
mod Bits
mod Listeners
mod Querying
mod Waiting
mod Downloading
use ytorrent.Base.{ℕ, dec_lt, dec_le}
use ytorrent.Base.Order.{lt_wf}
use ytorrent.Utils.Transcoder.{
  read_as_le16, read_as_le32, read_as_le64, write_as_le16, write_le32, write_as_le64, read_as_be16,
  read_as_be32, read_as_be64, write_as_be16, write_as_be32, write_as_be64,
}
use ytorrent.Net.Incoming.{
  get_size, get_buffer, advance, cpy_buffer, extract_next_byte, extract_next_u16, extract_next_u32,
  extract_next_u64,
}
use ytorrent.Net.Outgoing.{add_custom, add_u8, add_u16, add_u32, add_u64, bytes_of, size_of}
use ytorrent.Net.Link.{
  new_connection, is_connected, close, connect, read, write, write_message, get_ip,
  set_error_callback, reset_all_callbacks,
}
use ytorrent.Client.{new_peer, has_piece}
use ytorrent.Torrent.Sizes.{
  piece_size, finished_flag, piece_done, is_fully_downloaded, bytes_equal, digest_bytes,
  hash_matches, check_piece_hash,
}
use ytorrent.Torrent.Swarm.{
  get_raw_ip, is_black_listed, black_list_insert, black_list_erase, add_peer, handshaked,
  erase_first, remove_peer, disconnect_peer, disconnect, handle_error,
}
use ytorrent.Torrent.Select.{select_loop, modify_piece, act_on, select_piece_and_request}
use ytorrent.Torrent.Disk.{fseek, take_padded, overwrite, fwrite, fread}
use ytorrent.Torrent.Store.{
  file_offset, stream_of, seek_or_throw, all_or_throw, write_piece, set_bit, count_piece, announce,
  count_miss, accept_piece, handle_piece_completed,
}
use ytorrent.Torrent.Serve.{
  moved_or, seek_unchecked, open_file, send_bytes, send_from, handle_block_request,
}
use ytorrent.Torrent.Bitfield.{reverse_bits, get_raw_bitfield}
use ytorrent.Torrent.Parse.{
  new_torrent, build_handshake, read_pieces, parse_pieces, resize, read_metainfo, open_result,
  open_target, parse_file,
}
use ytorrent.Torrent.Connect.{
  is_active, is_skipped, start_peer, connect_to_peer, connect_loop, connect_to_peers,
}
use ytorrent.Torrent.Query.{sum_finished, build_tracker_query}
use ytorrent.Peer.Send.{
  write_out, send_interested, have_message, send_have, bitfield_message, send_bitfield,
  piece_block_message, send_piece_block, request_message, send_request, send_cancel,
}
use ytorrent.Peer.Request.{
  chunk_loop, each_block, request_piece, send_cancel_request, num_blocks, new_queued_piece,
  send_piece_request,
}
use ytorrent.Peer.Messages.{
  keep_reading, on_choke, request_all, on_unchoke, answer_interest, on_interested,
  on_not_interested, add_index, on_have, add_bits, add_bytes, select_unless_complete, on_bitfield,
  extract_three, serve, on_request, on_cancel,
}
use ytorrent.Peer.Blocks.{
  find_queued, erase_queued, update_queued, read_block, block_bytes, assemble, store_block,
  complete_piece, add_block, drop_piece, take_block, on_piece_block,
}
use ytorrent.Peer.Dispatch.{handle_message, size_minus_one, handle_body, handle}
use ytorrent.Peer.Handshake.{
  first_is, is_mismatch, peer_connect, on_connect, on_outgoing_handshake, authenticate,
  on_incoming_handshake,
}
use ytorrent.Session.{
  call_error, close_if_open, handle_failure, call_read, on_read, on_write, on_resolve, call_connect,
  on_connected, make_peer, on_accept,
}
use ytorrent.Tracker.Request.{event_text, query_text, request_text}
use ytorrent.Tracker.Response.{
  skip_spaces, read_word, read_number, read_signed, add_front, get_line, next_line, skip_header,
  use_answer, read_body, read_rest, read_status, read_response, http_request,
}
use ytorrent.Events.{step, run}
use ytorrent.Utils.TrackerUrl.{
  strip, span, non_empty, or_else, match_protocol, all_any, match_pass_key, match_path,
  match_with_port, match_without_port, question_to_and, url_meta_of, choose_groups,
  parse_tracker_url,
}
use ytorrent.Net.Acceptor.{
  new_acceptor, is_started, initiate_async_accept_loop, stop, on_accepted, on_accept_error,
}
use ytorrent.Tracker.Announce.{
  new_tracker, is_next_request_due, after_interval, keep_answer, write_request, query, is_empty,
  install_tracker, validate_tracker, query_main_tracker,
}
use ytorrent.Download.{
  accept_one, fail_accept, io_step, io_run, poll, disconnect_all, stop_acceptor, disconnect_peers,
  download_loop, open_acceptor, report_end, finish_download, leave_loop, start_download, download,
}
use ytorrent.Download.Seeding.{seed_loop, ensure_started, start_seeding, seed}
use ytorrent.Download.Custom.{start_custom, custom_loop, close_file, end_custom, custom_download}
use ytorrent.Main.{new_program, maybe_seed, after_download, after_parse, main}
use ytorrent.Utils.Text.{
  to_string, is_alnum, is_unreserved, hex_digit, url_encode, parse_ip, format_time,
}

all_code : ℕ
unfolding dec_lt dec_le lt_wf read_as_le16 read_as_le32 read_as_le64 write_as_le16 write_le32
    write_as_le64 read_as_be16 read_as_be32 read_as_be64 write_as_be16 write_as_be32 write_as_be64
    get_size get_buffer advance cpy_buffer extract_next_byte extract_next_u16 extract_next_u32
    extract_next_u64 add_custom add_u8 add_u16 add_u32 add_u64 bytes_of size_of new_connection
    is_connected close connect read write write_message get_ip set_error_callback
    reset_all_callbacks new_peer has_piece piece_size finished_flag piece_done is_fully_downloaded
    bytes_equal digest_bytes hash_matches check_piece_hash get_raw_ip is_black_listed
    black_list_insert black_list_erase add_peer handshaked erase_first remove_peer disconnect_peer
    disconnect handle_error select_loop modify_piece act_on select_piece_and_request fseek
    take_padded overwrite fwrite fread file_offset stream_of seek_or_throw all_or_throw write_piece
    set_bit count_piece announce count_miss accept_piece handle_piece_completed moved_or
    seek_unchecked open_file send_bytes send_from handle_block_request reverse_bits get_raw_bitfield
    new_torrent build_handshake read_pieces parse_pieces resize read_metainfo open_result
    open_target parse_file is_active is_skipped start_peer connect_to_peer connect_loop
    connect_to_peers sum_finished build_tracker_query write_out send_interested have_message
    send_have bitfield_message send_bitfield piece_block_message send_piece_block request_message
    send_request send_cancel chunk_loop each_block request_piece send_cancel_request num_blocks
    new_queued_piece send_piece_request keep_reading on_choke request_all on_unchoke answer_interest
    on_interested on_not_interested add_index on_have add_bits add_bytes select_unless_complete
    on_bitfield extract_three serve on_request on_cancel find_queued erase_queued update_queued
    read_block block_bytes assemble store_block complete_piece add_block drop_piece take_block
    on_piece_block handle_message size_minus_one handle_body handle first_is is_mismatch
    peer_connect on_connect on_outgoing_handshake authenticate on_incoming_handshake call_error
    close_if_open handle_failure call_read on_read on_write on_resolve call_connect on_connected
    make_peer on_accept step run event_text query_text request_text skip_spaces read_word
    read_number read_signed add_front get_line next_line skip_header use_answer read_body read_rest
    read_status read_response http_request to_string is_alnum is_unreserved hex_digit url_encode
    parse_ip format_time strip span non_empty or_else match_protocol all_any match_pass_key
    match_path match_with_port match_without_port question_to_and url_meta_of choose_groups
    parse_tracker_url new_acceptor is_started initiate_async_accept_loop stop on_accepted
    on_accept_error new_tracker is_next_request_due after_interval keep_answer write_request query
    is_empty install_tracker validate_tracker query_main_tracker accept_one fail_accept io_step
    io_run poll disconnect_all stop_acceptor disconnect_peers download_loop open_acceptor report_end
    finish_download leave_loop start_download download seed_loop ensure_started start_seeding seed
    start_custom custom_loop close_file end_custom custom_download new_program maybe_seed
    after_download after_parse main
all_code = 0
