-- ===== src/Lib.antt =====
-- The core of the value store of src/company_ref_variant_valuestore, which keeps values with dotted
-- names, each with a 64-bit token for the transport, and the protocol handler of the server in
-- src/company_ref_asio_protocol_server, through which a client reads, writes and watches the values;
-- and the definitions of data models of src/company_ref_dmo, from which values of the store are made.
--
-- Parts, from the bottom up. File names in the repository begin with
-- src/company_ref_variant_valuestore/company_ref_variant_valuestore_.
-- - Base: tests on numbers, lists, options, equality as an instance, and association tables, which stand
--   for `std::map` and `std::unordered_map`. The order of an unordered map is that of its table.
--   Base.Call is the outcome of a call: it returns, throws or is still running when the fuel ends.
-- - Word: the 32-bit words of C++, with their digits, `__builtin_clz`, `__builtin_ctz` and popcount.
-- - HashToken (hash_token.{h,cpp}): a token is a bucket identifier and a hash. `addToBucket` and
--   `removeFromBucket` keep the identifiers in use as digits of a word. The shift `1 << 32` of
--   `addToBucket` is undefined in C++, and the model returns no value there.
-- - HashBucket (hash_bucket.{h,cpp}): the word of each hash, with counters of 64 bits that wrap around.
--   The hash function of the object is an argument.
-- - TokenMap, TokenSet (hashtoken_map.h, hashtoken_set.{h,cpp}): maps and sets of tokens as maps of
--   maps. Each method holds the lock of its object, so a method is one step.
-- - FnvHash (hash_methods.cpp): the FNV-1a hashes, for both signs of `char`.
-- - Text.Number: `std::stoll`, `std::stoull` and the input of a number from a stream.
-- - Text, ValueId (valueid.{h,cpp}): names of parts between dots, and the iterator over the parts.
--   ValueId.Segments holds the view of a name as a list of parts. The walk over the parts runs on fuel,
--   one more than the parts, since each step reads one.
-- - Bucketizer (value_id_bucketizer.{h,cpp}): a token for each id, and back. It uses a hash bucket for
--   new tokens and a token map for the ids.
-- - ValueData (valuedata.{h,cpp}): the assignment of protocol values, type by type. The comparison of
--   messages, the check of an enumeration and the order of a container belong to
--   company_ref_protocol_utils, which is not in the repository: they are the fields of `Messages`.
-- - Variant (variant.{h,cpp}): a value with access, id, children and signal. Variant.Keys parses the
--   keys of a container; its loop runs on fuel, one more than the length of the text, since each
--   round drops a comma. Variant.FromText is `set` from a text, type by type, with the exceptions of
--   the conversions; its loop over the bytes of an EUI48 address runs on fuel, seven for six bytes. The
--   fields of messages that the texts become are `Texts`, outside.
-- - MapValue (src/company_ref_variant_valuestore/company_ref_variant_map_value.{h,cpp}): a container
--   value, which only requests changes of its children. The messages come from `Requests`, outside.
-- - Store (src/company_ref_variant_valuestore/company_ref_variant_valuestore.{h,cpp}): the store of
--   values by id, over a heap whose addresses are the shared pointers. `add` makes the missing parents
--   of a value and takes its token from the bucketizer. It runs on fuel, one more than the length of the
--   id, since the id of a parent is shorter. Store.Set has `set`, which calls `add` or the value.
--   Store.Visit is the visitor (visitor.{h,cpp}), Store.Delete `del` with all values below,
--   Store.Containers the calls on containers, Store.Destroy the destructor. They run on fuel, a number
--   of levels for a visit; more levels than the values below a value have are enough.
-- - Protocol (src/company_ref_asio_protocol_server/company_ref_asio_server_protocol_handler.{h,cpp}): the
--   state of a connection is the store, the tokens subscribed to, the listeners connected and the
--   messages sent, the last first. Protocol.Message has the messages (src/company_ref_protocol),
--   Subscribe and Answers the requests on values, Object the request by a wildcard, Changes what a
--   client changes, Notices what the store tells the handler, and Dispatch `doMessage`, which calls the
--   handlers of a message in the order of the code. A notice is a call of its own: the store records
--   signals, and the queue of the connection delivers them later. `Outside` holds the match with a
--   regular expression, `insertChild` of `DmoValueStoreHelper` and the messages of other packages.
-- - Dmo (src/company_ref_dmo/company_ref_dmo_container.{h,cpp}): the definitions of data models in a tree
--   of values. The tree is `boost::property_tree`, outside: `PropertyTree` has its methods as fields,
--   and theorems that rely on what they do name it as laws. Edit inserts and removes, Walk visits. The
--   loops run on fuel, one more than the parts of a name, one more than its length for the walk to the
--   parents, and a number of levels for a visit. Dmo.Helper (company_ref_dmo_helper.{h,cpp}) makes
--   values of the store from definitions; its `insert_child` is what the handler has in `Outside`.
-- - Tests: the results with a hypothesis or an argument at concrete inputs. Tests.Trees is a property
--   tree with its laws, Tests.Clients a store with clients on it.
--
-- Not modelled here: the other components of the repository (the server over boost, the clients, the
-- command line, the tools for data models, the logger), which call the store or are input and output;
-- the sockets and serializers under the handler; and the queues of asio behind signals.
pub mod Base
pub mod Word
pub mod HashToken
pub mod HashBucket
pub mod TokenMap
pub mod TokenSet
pub mod FnvHash
pub mod Text
pub mod ValueId
pub mod Bucketizer
pub mod ValueData
pub mod Variant
pub mod MapValue
pub mod Store
pub mod Protocol
pub mod Dmo
pub mod Tests
