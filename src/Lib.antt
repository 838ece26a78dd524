-- ===== src/Lib.antt =====
-- Verification of the console client of the blockchain messenger (bcm-linux-console).
--
-- A node keeps an SQLite database with its correspondents (GENERAL_TABLE: a name, a key, its size
-- and the offset up to which it has been used), its copy of the chain (BLOCKCHAIN_TABLE), and two
-- numbers (CONFIG_TABLE). A message to a correspondent is composed to a text of five fields, sealed
-- byte by byte under the unused part of the key, and becomes the body of the next block. Every node
-- tries each new block under the key of each of its correspondents. Blocks travel between nodes in
-- a file of bodies ended by `~`, from which a node computes the hashes itself. When the chain reaches
-- limit_number_of_transaction, each node empties it and begins again. A node brings its chain up to
-- date by asking a list of peers for the hashes of their last blocks and taking the chain of one that
-- has the most common hash. A transaction is announced to such a list, and the answer that most of
-- them give is taken. Large files are encrypted, cut into parts and spread over servers.
--
-- Files:
--   Common, Text    lists, Booleans and integers over the native numbers; C strings, strncpy,
--                   std::to_string and atoi
--   Program         how a C++ function ends: it returns, the process exits, the behaviour is
--                   undefined (a read or a write outside an array), or it waits forever
--   Sql             the tables and the statements that bcm-linux-console/Cpp_part.cpp sends, with
--                   the meaning that SQL gives them; Sql.Engine: SQLite as a parameter with its
--                   documented behaviour (IsSqlite), and the common part of the wrappers
--   Pad             bcm-linux-console/gen_key.cpp, and the loop that lays a key over a message
--   Keys            get_key_for_user, get_key_seek_for_user, get_key_size_for_user,
--                   set_key_seek_for_user and encrypt_text_message of Cpp_part.cpp
--   Transaction     parser of Cpp_part.cpp and the text that bcm-linux-console/Messenger.cpp composes
--   Decrypt         try_decrypt and return_my_user_list of Cpp_part.cpp
--   Hash            get_hash_from_string of Cpp_part.cpp
--   Chain           the wrappers of BLOCKCHAIN_TABLE and CONFIG_TABLE, check_clear_blockchain,
--                   key_seek_zero_for_all_users and blockchain_from_file_to_DB of Cpp_part.cpp,
--                   get_how_much_id and get_hash_id_container of bcm-linux-console/C_part.c
--   Analysis        analyse_blockchain_for_input_messages, analyse_blockchein_for_user_name,
--                   add_record_to_user_table and the counters of unread messages of Cpp_part.cpp
--   Server          send_message_server_part_function_i2pd of Cpp_part.cpp, behind the reading from
--                   the connection; Server.Accepted, Server.Delivered: a block that is taken in, and one
--                   with a message for the node
--   Wire            int_to_unsigned_char_array_4 and unsigned_char_array_4_to_int of C_part.c, the
--                   loops that send and receive data in pieces, and get_hash_or_blockchain_i2pd of
--                   Cpp_part.cpp; Wire.Numbers, Wire.Pieces, Wire.Client: their laws
--   Vote            get_actual_blockchain_copy_i2pd of Cpp_part.cpp and the import behind it in
--                   Messenger.cpp; Vote.Count, Vote.Election: the vote; Vote.Fetch, Vote.Adopt: the
--                   requests, and the node after them
--   Export          hash_and_blockchain_server_part_function_i2pd of Cpp_part.cpp, behind the reading
--                   from the connection, and blockchain_from_DB_to_file_c of C_part.c
--   Share           share_file and union_file (Share.Union) of Cpp_part.cpp; Share.Cut and
--                   Share.Names: the parts and their names; Share.Copies, Share.Placed,
--                   Share.RoundTrip, Share.Integrity: what comes back
--   Announce        send_message_i2pd of Cpp_part.cpp; Announce.Ballot, Announce.Sent: the answers of
--                   the peers, and the node that takes its own transaction into its chain
--   Tunnel          send_message and (Tunnel.Copy) get_actual_blockchain_copy of C_part.c, which
--                   announce and fetch over SSL
--   Messenger       the sending of a text message of Messenger.cpp, over i2pd;
--                   Messenger.Accepted, Messenger.Refused: a message that the peers agree with, and
--                   one that they refuse
--   Identifier      the names that SQLite takes for a new table
--   Accounts        create_table_for_new_user, update_key_file_for_user and
--                   return_my_messages_with_user of Cpp_part.cpp; Accounts.Registered,
--                   Accounts.Keyed: a correspondent and its key; Accounts.Listing: the messages that
--                   are shown; Accounts.First: two nodes that have exchanged a key
--   Connection      what both servers read from a connection; Connection.Line, Connection.Size: the
--                   destination and the size in front of the data; Connection.Served: whole connections
--   Replicas        the nodes as one system: Messenger, Announce and Server put together;
--                   Replicas.Members: the nodes that take in an announced block; Replicas.Ballots,
--                   Replicas.Round: what they vote for; Replicas.Sending: the turns as a step
--                   relation; Replicas.Turns: what holds after any number of turns
--   Examples        the theorems at concrete inputs
--
-- A function of the program that reads or writes the database is a function from a world (the
-- database and the files of the working directory) to an outcome and a world, in the order of the
-- calls of the code. Its theorems speak of `Runs`: from each world with given tables and files it
-- returns this value and leaves these tables and files. They hold for any engine that behaves as
-- SQLite does on the statements that it accepts: `Accepts` asks that texts written into a statement
-- have no quote, and that texts have no NUL.
--
-- A byte is a number below 256, so that a `char` from -128 to -1 is one from 128 to 255. An `int` is
-- an integer without a bound: sizes and numbers here are far below 2^31, since buffers have
-- BUF_SIZE bytes and the chain has a limit. Buffers that the code fills with zeros are lists behind
-- which NUL is read. Loops are by recursion on the bytes or the names that they pass over; the loops
-- of `parser`, which count up to MAX_TRANSACTION_LENGTH and do not look for a NUL, are by recursion
-- on the rounds that are left, and a read behind the buffer is a `fault`.
--
-- What the network does with a call (connections, what has arrived at each read) is a parameter, so
-- that each theorem holds for every such behaviour that its hypotheses allow. The loop that receives
-- is by recursion on its reads, the loops of the vote on the peers and on the tries that are left, and
-- those of share_file on the draws of `rand`, a list: a loop that draws until a number fits ends with
-- the list or goes on drawing. The temporary files of share_file and union_file are known by the
-- numbers in their names.
--
-- MD5 is OpenSSL's: a parameter, as are SQLite, the base64 decoder, the clock, CryptoPP's AES and
-- SHA-256, the servers that keep parts of files, and get_hash_or_blockchain over SSL. The mutex
-- round each statement, the log, the console output and the pauses are left out.
-- `encrypt_text_message` returns a pointer to a local array; the model has the bytes of that array
-- at the return. Writes of one NUL behind an array, which the server of transactions and
-- send_message_i2pd do, and the creation of the directory for received files, are left out. The
-- file of the database is there, and a file that is removed can be removed. Not modelled are the
-- transport (i2psam and the SSL programs), the SSL servers of C_part.c, the user interface, the
-- first opening of the database (Create_or_Enter_to_DB), and the encryption of files, which
-- CryptoPP does.
pub mod Accounts
pub mod Analysis
pub mod Announce
pub mod Chain
pub mod Common
pub mod Connection
pub mod Decrypt
pub mod Examples
pub mod Export
pub mod Hash
pub mod Identifier
pub mod Keys
pub mod Messenger
pub mod Pad
pub mod Program
pub mod Replicas
pub mod Server
pub mod Share
pub mod Sql
pub mod Text
pub mod Transaction
pub mod Tunnel
pub mod Vote
pub mod Wire
