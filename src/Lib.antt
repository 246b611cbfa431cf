-- ===== src/Lib.antt =====
-- Models of the C and C++ programs of this repository of course work, and proofs about them.
--
-- Each program is a part of its own. A part's functions take the program's state and return it
-- changed; a global array is a function of the index; a C string is the list of its bytes without
-- the terminator; a number is a natural number, or an integer where the program lets it fall below
-- zero. Sending, logging and closing append to lists in the state. Console output is left out.
--
-- Prelude: what the parts share: Boolean tests, lists and arrays over native numbers, the string
-- functions of the C library that the programs call, decimal output.
--
-- Chat: System Programming/Final/Final Project/server/server.c and server.h, the chat server.
-- Chat holds the state (`Server`: clients, rooms, the file queue with its semaphores, and what has
-- been sent, logged and closed). Chat/Names: is_valid_username, is_valid_room_name and the
-- searches. Chat/Rooms: create_room, leave_room. Chat/Join: join_room, broadcast_to_room.
-- Chat/Files: handle_file_transfer, add_to_file_queue and the taking of a request. Chat/Transfer:
-- process_file_transfer. Chat/Commands and Chat/Dispatch: the commands of client_handler.
-- Chat/Session: the accept loop, the login, cleanup_client, client_handler round by round.
-- Chat/Shutdown: SIGINT. A function runs as one step; where a thread sleeps or waits in the middle
-- of one, or gives a mutex back between a test and what follows from it (`/join`), a parameter
-- `others` stands for what the other threads do meanwhile. The searches run
-- over the whole tables (100 clients, 50 rooms); the loop of leave_room has one round of fuel for
-- each user, which leave_loop-eq-others shows to be enough. Not modelled: the set-up of the
-- sockets, thread creation, and the other interleavings inside one function.
--
-- LogAnalyzer: System Programming/HW4/HW4/buffer.c, buffer.h and main.c. LogAnalyzer/Buffer: the
-- circular buffer, `none` standing for a call that waits. LogAnalyzer/Search: read_line, the lines
-- that the manager puts, the loop over strstr; the fuel is the number of bytes of the file, and one
-- more than the length of a line. LogAnalyzer/Threads: the manager and the workers as a step
-- relation; taking a line and counting in it is one step, and the counts stay below 2 ^ 31. Not
-- modelled: the arguments, args->matches, the barrier, the creation of threads and SIGINT.
--
-- Satellites: System Programming/HW3/HW3/main.c. The pointers of requestQueue are the numbers of
-- the satellites. Satellites/Queue: add_to_queue. Satellites/Sorted: the order of the queue, and
-- pop_from_queue. Satellites/Removal: the timeout. Satellites/Threads: the threads of satellites and
-- engineers as a step relation with the semaphore newRequest, for every value of rand and of the
-- clock. A critical section is one step. The pop of an engineer, which the source leaves without a
-- lock, is one step for its start, one for each round of its loop and one for its end, so that pops
-- come between one another; a run of two engineers that take the same request is in
-- Satellites/Threads/Examples. Arrival times are seconds below 2 ^ 31. main starts the threads in
-- `start`. Not modelled: requestHandled, which no thread waits for, sleeping, printing, a size of the
-- queue below zero, and turns between the two halves of one statement.
--
-- Bank: System Programming/Midterm/Midterm Project/server.c. The accounts hold 32-bit words.
-- Bank/Tellers: the tellers of a batch as a step relation, each section under sh_lock being one
-- step, for batches that fit the table of 1000 requests and as long as the accounts fit theirs.
-- Bank/Ledger: the invariant of the accounts over every such run. Bank/Race: the critical sections
-- of single tellers. Bank/Database: load_db with its sscanf on the bytes of Bank.log, and in its
-- files what it reads of the lines that write_log has written. Not modelled: the set-up of the
-- shared memory and the fifos, signals.
--
-- Machine: Operating Systems/Semester Project/Project, the CPU simulator. Machine holds the state,
-- memory.cpp, and the monad of its functions: an exception keeps the changes made before it, and
-- undefined behaviour is an outcome of its own. Machine/Instructions: the handlers of cpu.cpp.
-- Machine/Execute: execute, loadProgram, reset, the loop of main.cpp with fuel, for which 100001
-- rounds are enough. Machine/Laws, Machine/Stack, Machine/Control: calls that succeed, the stack,
-- the flow of control. Machine/Isolation: what user mode can change. Machine/Lexer and
-- Machine/Parser: parser.cpp, with a printer of programs of which it is the inverse. A `long` is
-- the 64-bit word that it is as a `size_t`. Not modelled: the debug callback, dumps and messages.
--
-- WordSearch: Computer Programming Fall/PA4/PA4.c, once its files are read. The loops carry the
-- number of rounds that their bounds leave. Not modelled: reading the files.
--
-- Sparse: Object Oriented Programming Spring/PA2/PA2/SparseVector.cpp. The operations on double are
-- a record that every function takes. An undefined access is `none`. Sparse/Merge: the loop of add,
-- for which one round more than there are elements is enough. Sparse/Order: sort. Sparse/Sum,
-- Sparse/Minus, Sparse/Dot: the operators. Sparse/Matrix: SparseMatrix.cpp; its add works on the
-- cells from one on, with one round for each cell. Sparse/Matrix/Cells: what add leaves at each
-- place. Sparse/Matrix/Sorted: the two sorts, operator+ and transpose. Not modelled: reading and
-- printing.
--
-- Robots: Object Oriented Programming Spring/PA4/PA4.cpp. A robot is a number, the grid an array of
-- such; rand () is a parameter, and hitpoints are integers without a bound. Robots holds
-- getDamage, hitMessage, fight, moveRobot, move and moveLoop; a fight has one round of fuel more
-- than its victim has hitpoints. Robots/Fight, Robots/Walk, Robots/Loop: the theorems on each.
-- Robots/Simulation: simulation, with fuel for the moves of each robot, which a walk without fights
-- can use up. Robots/Placing, Robots/Filled: the placing of the robots in main, with fuel for each
-- of its loops, which enough of is shown to exist where rand () is fair. Not modelled: the loop of
-- main around simulation, names, output.
--
-- Catalog: Object Oriented Programming Spring/PA5/PA5.cpp. Catalog: the fields, with split for a
-- loop over getline. Catalog/Entries: parse_format, parse_entry, the loop over data.txt.
-- Catalog/Commands: parse_command, search, sort, print, main. An outcome is a value, an exception
-- that nothing catches, or undefined behaviour; a runtime_error, which the program catches, is
-- reported in the lines of output.txt. The standard library's doubles and std::sort are the record
-- Library, a parameter, and what is relied on of std::sort is Permutes in Catalog/Whole. Not
-- modelled: destructors.
--
-- School: Object Oriented Programming Spring/PA3/PA3. School holds the arrays, Student.cpp and
-- Course.cpp and the reading of a line; School/Menu the functions of SchoolManagementSystem.cpp and
-- the choices of main.cpp. A pointer into an array is an index, and `none` an uncaught exception or
-- undefined behaviour. The loop of the two deletions has one round of fuel more than the array has
-- elements, which School/Deletion shows to be enough. School/Enrolment says when the enrolments are in order; School/Leaving,
-- School/Steps, School/Listing, School/Taking and School/Runs follow it through the choices. Not
-- modelled: the menus and lists that are printed, destructors, choices below zero.
--
-- Of the other programs, the chat client, the first two homeworks of System Programming, the bank
-- client and the other exercises of Computer Programming are not modelled; nor is generated code, nor
-- code in other languages than C and C++. Of the C++ programs only the CPU simulator, the sparse
-- vectors and matrices, the robots, the school and the catalog are modelled.
pub mod Prelude
pub mod Catalog
pub mod Chat
pub mod LogAnalyzer
pub mod Satellites
pub mod Bank
pub mod WordSearch
pub mod Machine
pub mod Sparse
pub mod Robots
pub mod School
