-- ===== src/Lib.antt =====
-- mongo-perl-driver: the C code of the MongoDB driver for Perl.
--
-- The driver's Perl modules call C code through the files in xs/. perl_mongo.c turns Perl values
-- into BSON documents (perl_mongo_sv_to_bson, append_sv and what they call) and documents into
-- Perl values (perl_mongo_bson_to_sv, elem_to_sv), and has the growing buffer in which messages
-- are put together. xs/Mongo.xs and xs/Cursor.xs write the messages of the wire protocol into
-- such a buffer, with the header macros of mongo_link.h. mongo_link.c connects to the server,
-- sends a message (mongo_link_say) and reads the reply into the buffer of a cursor
-- (mongo_link_hear), from which xs/Cursor.xs takes documents with perl_mongo_buffer_to_sv.
--
-- Files:
--   Common      numbers, Boolean tests, lists and integers that the modules share; Common/Places:
--               memory as a list of places, and who owns what
--   Buffer      struct buffer, perl_mongo_resize_buf, perl_mongo_serialize_* (perl_mongo.c) and
--               MONGO_32, MONGO_64 (perl_mongo.h); a byte that was skipped and never written is
--               a cell of its own
--   Outcome     how a call ends: a value, a croak, or the model's recursion out of fuel
--   Perl        the Perl values that the C code reads: scalars with their flags, references into
--               a heap, objects with what their accessors return
--   Libbson     the interface of libbson (bson/, a bundled library) as a record, with the
--               documented behaviour of its calls as laws and an implementation of them
--   Encode      perl_mongo.c from check_circular_ref to perl_mongo_sv_to_bson: Keys (clean_key,
--               containsNullChar), Circular (check_circular_ref), BigInt, Regex, Calendar
--               (timegm), Leaves (values with no document inside), Append (append_sv,
--               hv_to_bson, av_to_bson, ixhash_to_bson), Document (perl_mongo_sv_to_bson,
--               perl_mongo_sv_to_buffer). Append/Meaning says what a value is stored as without
--               the builder, the stack and the recursion; Append/Faithful compares append_sv with it;
--               Append/Names is about the names that an insert stores
--   Decode      perl_mongo.c from elem_to_sv to perl_mongo_bson_to_sv: an iterator is the list
--               of the fields that it has not yet read
--   Wire        write_query, write_insert, write_remove, write_update (xs/Mongo.xs) and what
--               has_next and kill_cursor send (xs/Cursor.xs); Wire/Format has the interface to
--               the function that appends a document, Wire/Documents fills it with
--               perl_mongo_sv_to_buffer
--   Link        mongo_link.c: set_disconnected, perl_mongo_master, mongo_link_say; Link/Hear:
--               mongo_link_reader, get_header, mongo_link_hear; Link/Connect: the connection;
--               Link/Ssl: tcp_setup, ssl_connect; Link/Sasl: sasl_authenticate
--   Iteration   has_next and _reset of xs/Cursor.xs; Iteration/Next: next, _init, info, DESTROY;
--               Iteration/Memory: cursor_free, cursor_clone and the buffers of cursors
--   Client      connect, connected, send and DESTROY of xs/MongoClient.xs; Client/Memory: the
--               making, cloning and freeing of links and their servers
--   Bson        decode_bson and encode_bson of xs/BSON.xs, _build_value of xs/OID.xs
--   Interp      the calls of Perl code in perl_mongo.c (perl_mongo_call_method and the like) with
--               the interpreter's stacks; Interp/Magic: the C pointers that objects carry;
--               Interp/Frames, Interp/Arguments and Interp/Returns: a call before and after the
--               Perl code has run
--   Tests       runs of the definitions and of the theorems on concrete inputs
--
-- State: a buffer, a document under construction and a cursor are passed and returned; the
-- servers that links share are a list that a link points into by its index; sockets, clocks and
-- the methods of Perl objects that are called back are arguments (Network, Sockets, Openssl,
-- Gsasl). Iter holds what a call of next goes through, Memory what has been allocated for links.
-- A cursor asks the server through mongo_link_say and mongo_link_hear, and takes the documents of
-- the reply with perl_mongo_buffer_to_sv.
--
-- Fuel: append_sv takes one unit for a container inside a container, and as many as the heap has
-- addresses, and one, are enough unless a MongoDB::Code has a scope. mongo_link_reader gives its
-- loop two rounds more than there are bytes to read; the loop that throws responses away takes
-- one unit for a response, of which the stream can hold no more than it has bytes; the loop of
-- perl_mongo_resize_buf takes one round on sizes that are positive ints; decode_bson takes one unit for a document, of which there are no more than bytes.
-- The wait for a connection and the steps of a SASL authentication have no bound in the code, and
-- none here.
--
-- Not modelled: the code for Windows, _compile_flags, reference counts outside of the calls into
-- the interpreter, the query that the Perl method _do_query sends (an argument of next), memory
-- that runs out, the SSL context and handle in a link once they have been made (they are part of the
-- World of Network), and the bundled libraries in bson/ and yajl/. Doubles are their bit patterns.
pub mod Common
pub mod Buffer
pub mod Outcome
pub mod Perl
pub mod Libbson
pub mod Encode
pub mod Decode
pub mod Wire
pub mod Link
pub mod Iteration
pub mod Client
pub mod Bson
pub mod Interp
mod Tests
