-- ===== src/Lib.antt =====
-- threadjs-lib, an addon for node.js that runs scripts in threads of their own: each thread has its
-- v8 isolate and libuv loop, and it exchanges text messages with the thread that made it. The addon
-- is src/*.cc and src/*.h; its parts work together as follows.
--
-- * A thread id of ID_container (src/data.h) says whether the thread is alive; the object of the
--   thread in JavaScript carries it in 32 bits. IdContainer.antt.
-- * Each side of a thread has an endpoint RecvEventData (src/data.h) with a queue of messages. Its
--   uv_async_t handle names it by an id in the table ObjectMap (src/data.h), since the other thread
--   may have freed it. ObjectMap.antt, on the map of StdMap.antt (std::map and its find, insert,
--   erase and operator[]), and Events.antt: Events/Channel.antt says what the calls do to the two
--   queues, Events/Delivery.antt what arrives, Events/Races.antt which interleavings of the two
--   threads break it, Events/Receive.antt the handler that calls JavaScript, Events/Text.antt the
--   text of one message, Events/Pending.antt whether one waits.
-- * `wait` of the thread and `notify` of its maker (j_wait and j_notify, src/main.cc) suspend the
--   thread until an answer comes, on WaitThread of src/tools.h. Waiting.antt has the operations,
--   Waiting/System.antt the steps of the two threads as a relation, Waiting/Handover.antt,
--   Waiting/Suspended.antt and Waiting/Races.antt what its runs keep and where they fail,
--   Waiting/Buffer.antt the array in which j_wait makes its message.
-- * A message is text that the class Json of src/tools.h writes. Json.antt; Json/Render.antt says
--   which text that is, Json/ReadBack.antt reads it again by the grammar of JSON, which
--   Json/Reader.antt has, without white space, which the writer never makes outside of a text, and
--   Json/Unreadable.antt has what cannot be read.
-- * Callbacks of timers, and functions for the next tick, are the Timers of a TimerPool
--   (src/timeImpl.cc). Timers.antt has the operations and the handlers of libuv; its children have
--   the invariant of the pool (Valid), what callbacks do to it (Steps, Callbacks), the next ticks
--   (Ticks, Order), the end of the pool (Pool) and callbacks that clear a timer in use
--   (Freed); Methods has the functions of JavaScript and the global object that they are set on, with
--   set_method and rm_method of src/tools.h, Globals and Handles what comes of both.
-- * js_save and js_load (src/serialize.cc) copy a JavaScript value. Serialize.antt; its children
--   have the JavaScript heap (Values), the trees that values are (Trees), saving (Save), restoring
--   (Restore, with Heaps, Scalars and Turns), both together (Copy) and values that contain
--   themselves (Cycles); Memory has the blocks of a saved value, its destructors and Serialized, and
--   Owned what is freed.
-- * The life of a thread is do_script of src/main.cc with ReqData (src/data.h and src/data.cc), and
--   on the side of its maker j_create, j_stop, j_use_time, j_send_event and the two handlers of its
--   loop. Life.antt has the statements of the thread, Life/Calls.antt those of its maker and
--   Life/System.antt both in any order. The types are in Life/State.antt. Life/Inv.antt says what is
--   true of a thread at each point; Table, Worlds, Endpoints, Keep, Statements, Release, Script,
--   Effects, Callers, Handlers and Creation of Life/ are why, Safety and Calling what comes of it,
--   Ends what a thread leaves behind, Stopping and Liveness how it comes to its end, Rounds what the
--   handler does of which Life/Calls.antt has one round, and Races and Times which calls come at the
--   wrong time.
-- * do_script holds what it makes by LocalPoint, AutoDispose and LockHandle (src/tools.h), and
--   free_sub_loop reports the handles that are left by ReportLeak (src/data.cc). Resources.antt and
--   Resources/Leaks.antt, and Resources/Report.antt for the report.
-- * The threads of a process share the pool of ids and the object tables (src/main.cc, id_pool and
--   object_container). Process.antt has any number of them, with their makers and j_create, in any
--   order; Frame, Binding, Local, Statements, Turns and Callers of Process/ say what a step leaves
--   as it was, Inv, Turning and Making what is true of the process, and Safety what comes of it.
-- * An error of a thread is a message to its maker: Errors.antt has SEND_V8_ERR_EVENT,
--   SaveCallFunction (src/tools.h and src/tools.cc) and the catch of do_script, Errors/ReadBack.antt
--   and Errors/Quotes.antt what a JSON reader makes of them, Errors/Sent.antt what a callback sends
--   and Errors/Texts.antt the message.
-- * A script is compiled with a line offset that find_code_offset (src/main.cc) computes. Script.antt
--   and Script/Offset.antt; Script/Compile.antt has compilerCode, with the compiler as a parameter,
--   and Script/Reports.antt what comes of its errors. Script/Eval.antt has j_eval and
--   j_create_context, Script/Replies.antt what they reply.
--
-- Function names are those of the code in small letters with underscores: pushEvent is push_event,
-- setMultLine is set_mult_line. A method takes its object as the last argument and gives it back.
-- Texts are lists of bytes. A raw pointer is the name of what it points to; a use after free, a
-- write outside an array, a signed overflow and an exhausted recursion are `none`, or the values of
-- Outcome in Timers.antt and in Life.antt.
--
-- Bounds and fuel: the ids of ID_container are unsigned longs of 64 bits, those of ObjectMap ints of
-- 32, and the arithmetic on them is written out. create_data_with_type has fuel for the depth of
-- the value, recv_other_thread_event for the messages that wait, and do_tick for the next ticks that
-- wait and those that their callbacks ask for; a callback is finite, with
-- those that it asks for, so that one which asks for itself again is left out. The results give the amounts. A
-- thread of Life.antt steps without fuel; what v8, libuv and the script decide there is a choice, and
-- the clock of the loop any numbers that do not fall.
--
-- Calls of the queues are one step each where threads run side by side, though the code has no lock
-- over a whole pushEvent or bindPeerEvent; Events/Races.antt has an overlap of the two.
--
-- Not modelled: v8 and libuv, which are parameters or, as the strings, handles and values of the
-- models, data with the documented behaviour; of do_script the isolate, the context, the methods that
-- it sets and the C++ exceptions for which the switch of its catch has no case; MakeCallback of node,
-- which is taken for CALL_JS_OBJ_FN_RET_BOOL; V8::TerminateExecution, which makes a script throw, but
-- in j_eval; j_RunMicrotasks, which calls v8; of the JavaScript that a thread of Life.antt runs, all but its
-- messages: its waits, timers and received messages are in Waiting.antt, Timers.antt and Events.antt,
-- apart from it; that one object_container holds the endpoints and what del_event names under one counter, for which
-- there are two tables with a counter each, so that no key of one kind finds an object of the other; a second use of the address of a uv handle, which is
-- new to each thread of Process.antt; the signal handler of src/sys-fail.cc; memory that only the
-- allocator sees; and the JavaScript under lib/.
pub mod Base
pub mod Json
pub mod StdMap
pub mod ObjectMap
pub mod IdContainer
pub mod Events
pub mod Waiting
pub mod Script
pub mod Serialize
pub mod Timers
pub mod Errors
pub mod Life
pub mod Process
pub mod Resources
