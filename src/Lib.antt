-- ===== src/Lib.antt =====
-- redis_simple: models of the server's components, and what makes each of them correct.
--
-- The program is a small Redis server: a TCP event loop reads requests into a buffer, a parser
-- splits them into commands, command handlers work on a keyed database of typed values, and the
-- replies wait in an output buffer until the socket takes them.
--
-- Which file models which part:
-- - IntSet (memory/intset.h, memory/intset.cpp): the ascending integer set that holds small sets of
--   integers. A state is the list of cells, the length and the width of a cell; `add`, `find`,
--   `remove`, `get`, `minimum` and `maximum` are the methods of the same names, `search` with
--   `search_loop` is `Search`, `upgrade_and_add` is `UpgradeAndAdd`, and `store`, `resize` and
--   `move_tail` are the private helpers. `slot` is the cell at a byte offset, which is a product of 32
--   bits and wraps. `none` is the exception of `EncodedValue`. The search loop
--   takes as fuel one more than the number of members; each round shortens the range, so that is
--   enough, and that it always returns is part of the theorems on the methods.
-- - DynamicBuffer (memory/dynamic_buffer.h, memory/dynamic_buffer.cpp): the read buffer of a
--   connection, with the whole array as state and `size_t` arithmetic that wraps.
-- - ReplyBuffer (memory/reply_buffer.h, memory/reply_buffer.cpp, memory/buf_node.h): the bytes that
--   wait to be sent, in a fixed buffer and a list of nodes. The byte counts are plain numbers; the
--   connection is closed before 64 MiB are pending.
-- - Decimal (utils/int_utils.cpp, and the integers of utils/string_utils.cpp): `digits10` is `Digits10`
--   on fuel for two rounds, which cover 64 bits; `write_digits` is the loop of `Uint64ToString`, with
--   the number of digits as fuel; `to_int64` and `to_canonical_int64` are the parsers, with `none` for
--   the result false.
-- - RequestParser (server/request_parser.h, server/request_parser.cpp): `parse` on the bytes of the
--   input, with `parse_resp` and `parse_inline`; a view is the list of the bytes it shows.
--   `bulk_header` and `bulk_content` are the later parts of `ParseBulkString`, and `resp_header` that
--   of `ParseResp`. The loop of `ParseInline` takes the length of the line as fuel; each round moves
--   on by a byte at least.
-- - Replies (server/reply.h, server/reply.cpp): the encoders, `from_...` for `From...`, on lists of
--   bytes; `none` is an exception, and the text of a float is given.
-- - RespParser (cli/resp_parser.h, cli/resp_parser.cpp): `parse` on the bytes of a response, with the
--   values that the client prints passed on and returned. `parse_at` takes a bound on the depth of
--   aggregates, one more than the length of the input for `parse`, and what is returned where that
--   runs out; RespParser/Texts has `ParseFloatText`. RespParser/Response has the responses and their encodings by Replies.
-- - ListPack (memory/listpack.h, memory/listpack.cpp): the bytes of a listpack, with the entries in
--   ListPack/Codec. `encode_integer`, `encode_string` and `encode_backlen` give the bytes that the
--   functions of these names write, `integer_at`, `string_at` and `decode_backlen` read them, and
--   `get`, `first`, `last`, `next` and `prev` are the methods, with `out_of_range` for their
--   exception; `insert` is `Insert` before an entry. The loop of `DecodeBacklen` goes down with the
--   index.
-- - Dict (memory/dict.h): the hash table with two tables and incremental rehashing, for byte strings
--   as keys; `std::hash` is a parameter. A bucket is a list of entries, and an operation takes the
--   dictionary and returns it: `find_value`, `set_value`, `insert_value`, `extract`, `delete`, `scan`
--   and `clear` are `FindValue`, `Set`, `Insert`, `Extract`, `Delete`, `Scan` and `Clear`. Dict/Tables
--   has the state and the changes of one table. The loop of `Rehash` takes as fuel the sum of its two
--   counters, one of which each round counts down.
-- - Database (server/db/db.h, server/db/db.cpp): the class `RedisDb` over two tables of keys and
--   values, of which `find_value`, `set_value` and `delete_value` are the operations of the
--   dictionaries. `now` and `later` are readings of the clock in the order of the code, and
--   `reclaimed` is the answer of the reclaimer. Database/Sampling has `ExpireSome`, with the scan of
--   the dictionary as an argument and the number of its buckets, with one more, as fuel: a scan visits
--   each bucket once at most; Database/ActiveScan puts the scan of Dict there. `Reached` lists the steps of a database, and Database/Represents relates
--   a table to the hash table of Dict.
-- - Common: lists over the native numbers, Boolean tests, signed integers, 64-bit arithmetic.
-- - Tests: runs of the models, and the theorems at concrete inputs.
--
-- Not modelled: the event loop, sockets and files, logging and the fuzzers, which are effects on the
-- operating system or tests; the quicklist and the skip list, the data types over them, the cycle of the
-- active expiry, the append-only file and the command handlers.
pub mod Common
pub mod Decimal
pub mod IntSet
pub mod DynamicBuffer
pub mod ReplyBuffer
pub mod RequestParser
pub mod Replies
pub mod RespParser
pub mod ListPack
pub mod Dict
pub mod Database
pub mod Tests
