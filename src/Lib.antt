-- ===== src/Lib.antt =====
-- vcpkg-test: a collection of C++ programs that exercise packages. This library models those
-- that have logic of their own, each part on its own; the parts do not call one another.
--
-- * Window.antt is `src/min_char_window.cpp`. The 256 cells of `chars` are a function from the
--   byte to a record `A`, a pointer to a cell is its index and a null pointer `none`; `List<A>`
--   is a head and a tail over them (`Mem`), and `emplace_back`, `pop_front`, `pop_back` and
--   `pop` write `next` and `prev` in the source's order. `min_win` is `init_chars`, one `visit`
--   for each character (`insert_new`, `move_old`, `measure`) and `result`. `none` is an index
--   out of range, a null pointer read or an exception. `size_t` wraps at 2^64. Window/Spec is
--   the independent description of a shortest window; Window/Dll, Links, Moves and Touch are
--   about the links, Order, Track and Best about the search, Start, Cells, Visit and Scan about
--   its loop, Single about patterns of one character, Round about a round on any list, also one
--   whose oldest cell is linked to itself, Total about all ASCII texts, Miscounts and Miscounted
--   about inputs that lead to such a list, Repeated about patterns that repeat a character,
--   NonAscii about bytes above 127, OneWide about a window of one character, and Doubled follows
--   a doubled input to its answer.
-- * Generator.antt is `src/gz/Generator.cc`: `replaceAll`, on fuel of two rounds more than the
--   text has bytes, which is enough since the position grows in each round and ends the loop if
--   it wraps; and `Generate`, whose calls of the generator context and the printers are a list
--   of events. Generator/Substitute has the replacement of matches from left to right, and
--   Generator/Directives how a preprocessor reads what is inserted. Generator/Filenames has the
--   names of the files for any input. Text.antt is what the code uses of `std::string`, and
--   Text/Rfind is about the last match.
-- * Variate.antt is `src/variate.cpp`. What the compiler does is a function too: the flags that
--   friend injection defines are a map that each call site extends. A specialization of
--   `instantiate_next_flag` is instantiated once and then keeps its type, so a repeated type can
--   take an index that is there already; the theorems are about call sites of different types.
--   The depth of the recursion over flags is fuel, one more than there are call sites. C++ types
--   are a parameter with a decision of their equality. Variate/Prod has the functions of `prod`,
--   Variate/Calls `a`, `b` and `main` with their assertions, as values that can fail;
--   Variate/Injection is about the flags, MaxSize and MakeVariant about the rest of
--   `make_variant`.
-- * DataProvider.antt is the handler of `src/asio-grpc/dataProvider.cpp`; the requests, and
--   whether each write succeeds, are given as a list. DataProvider/Coroutines is the same
--   handler as a coroutine for each client; a list of completions says in which order the one
--   thread resumes them. DataProvider/Interleaved compares the two.
-- * Interleaving.antt is the coroutines that one thread runs: a completion resumes the one that
--   waits for it. The data provider and the greeter use it.
-- * Servers.antt is what the three servers of `src/asio-grpc` share: the thread count, the
--   completion queues and the calls of the builder.
-- * Greeter.antt is `src/asio-grpc/main2.cpp`: the two handlers, the client, and `main`, whose
--   threads take their completion queues in any order; what a thread does until it has the queue
--   is modelled, and `main` stands for any moment of the program by the list of the threads that
--   have begun. Greeter/Serving is what one thread makes of the RPCs that it serves at the same
--   time, and Greeter/Interleaved what each client hears then. What gRPC carries is a record
--   `Transport`, and `Delivers` is what the library documents of it.
-- * Arcus.antt is `src/arcus/example.cpp`: `handleMessage`, and the loop of `main` over a list
--   of what the socket answers; Arcus/Ending says when it ends. `float` is a parameter with its
--   operations. An `int` or `int32` that is only copied is a number of ℕ.
-- * Echo.antt is `src/brpc/server.cpp` and `src/brpc/client.cpp`: the echo service, the start of
--   its server, and the client: the channel, and the loop over the answers of `IsAskedToQuit`
--   with `log_id` an `int`; a call is a function of the log id and the request. Echo/Calls is
--   about the client with the service, Echo/Startup about the start of the server.
-- * HelloWorld.antt is `src/asio-grpc/main.cpp`: its handler, and `main` with what its threads
--   do; the completion queues and the calls of the builder are those of Servers.antt. What
--   `std::stoi` and `BuildAndStart` answer are arguments, here and there.
-- * Tracing.antt is `src/opentelemetry/bind_tracer.hpp`: tokens, initiations and completion
--   handlers are data that nest as the templates do, and a call of a span, of the RPC or of the
--   user's handler is an action in a list. A span is the number that `StartSpan` gives it.
--   Tracing/Clients runs any number of requests at once; Recorded and Requests are about the
--   spans that are open. Tracing/Greet has the client of `src/opentelemetry/main.cpp`,
--   Tracing/Programs this program as a whole, with what the set-up of
--   `src/opentelemetry/tracer_common.h` sets, Tracing/Exports what it exports and sends,
--   Tracing/Address the address that it connects to, and Tracing/Carriers the carriers of
--   `src/opentelemetry/tracer_common.h`, with the memory that lies behind a value.
-- * VisitTransform.antt is `src/visit_transform.h`: a transformer is any function that takes a
--   continuation, and arguments are objects of one type with the value category of the
--   expression; `forward_as` passes a reference or moves. VisitTransform/Nesting has the nested
--   calls that both routines are compared with.
-- * StaticViews.antt is `src/static_views.hpp`: the concepts, what C++ asks of constant
--   expressions and of template arguments, the pass into an array of 10 * 1024 elements and the
--   pass into one of the right size.
-- * Tbb.antt is `src/tbb/main.cpp` and `src/tbb/lib.cpp`: the calls of TBB and of the CAD
--   library as events; the parts of the model that is read are a list. A limit knows the
--   function that it is a variable of.
-- * ClientRpc.antt is `src/client_rpc_intellisense.cpp`: the variable template `RPC_TYPE`; a
--   specialization is a test of the type of the method, with the qualifiers behind its
--   parameters. A class template is one that can be applied to one type.
--
-- Prelude.antt has the names that the parts share. Each part has a module Tests.
--
-- Not modelled: `src/opentelemetry/main-copy.cpp`, which does not compile with its header; the
-- other programs of `src/`, most of which only include a package; health checks, reflection,
-- exporters and the encoding of messages, which are in libraries; what an object is behind a
-- move in C++.
pub mod Prelude
pub mod Window
pub mod Text
pub mod Generator
pub mod Variate
pub mod Arcus
pub mod Interleaving
pub mod Servers
pub mod DataProvider
pub mod Greeter
pub mod HelloWorld
pub mod Echo
pub mod Tracing
pub mod VisitTransform
pub mod StaticViews
pub mod Tbb
pub mod ClientRpc
