-- ===== src/Lib.antt =====
-- TESLA checks temporal assertions while a program runs: each assertion is an automaton, and the
-- instrumented program reports its events to libtesla, which this development models from the C
-- sources, in user space and with assertions enabled (no NDEBUG).
--
-- The parts and how they interact. A store (libtesla/src/tesla_store.c), one global and one for
-- each thread, holds a hash table of classes, one class for each automaton, and the lifetimes that
-- have begun. A class (libtesla/src/tesla_class.c) holds an array of instances of its automaton; an
-- instance is a state and a key (libtesla/src/tesla_key.h), which names it by the values of some
-- variables. An event arrives at tesla_update_state (libtesla/src/tesla_update.c), which gets the
-- store and the class and updates the class: late initialisation makes the first instance; the loop
-- over the instances asks tesla_action what the event does to each; clones are added at the end,
-- and the class is reset if a transition says so. tesla_sunrise and tesla_sunset begin and end a
-- lifetime. What happens is told to event handlers (libtesla/src/tesla_notification.c), which print
-- or stop the program.
--
-- The automata come from the compiler side (tesla/common). A description is a protocol buffer
-- (tesla.proto); NFAParser of Automaton.cpp makes of it a graph of states and transitions, in which
-- a null transition is an epsilon; DFABuilder makes of the NFA a DFA whose states are sets of NFA
-- states; Transition::GroupClasses groups the transitions into classes, one for each symbol of the
-- alphabet; and InstrContext emits them as the constants that libtesla reads. Manifest.cpp loads
-- the descriptions of a file, makes an automaton of each and finds it again by its identifier.
--
-- The files. Base: shared names, C arrays as lists, runs of code that may stop, masks. Types: the
-- data of include/libtesla.h and libtesla/src/tesla_internal.h. Key: tesla_key_matches,
-- tesla_key_union. Class: tesla_class_init, tesla_match, tesla_instance_new, tesla_class_reset and
-- the rest of the class operations. Lifetime: same_lifetime, same_static_lifetime, the registration
-- of classes. Action: tesla_action. Init: late initialisation. Update: the rest of
-- tesla_update_class_state. Store: tesla_store_init, tesla_store_get, tesla_class_get,
-- tesla_store_free, tesla_store_reset. Monitor: tesla_update_class_state, tesla_update_state,
-- tesla_sunrise, tesla_sunset. Debug: libtesla/src/tesla_debug.c. Notify:
-- libtesla/src/tesla_notification.c. Ir: the messages of tesla/common/tesla.proto and their
-- comparison in Protocol.cpp. Automata: tesla/common/State.cpp and Transition.cpp, with the classes
-- of Automaton.cpp. NfaParser: NFAParser of tesla/common/Automaton.cpp, with NFA::Parse and
-- NFA::Link. Dfa: DFABuilder of the same file. Instrument: what tesla/instrumenter/InstrContext.cpp
-- emits for an automaton; its modules Table, Compiled and Followed put the compiler's parts
-- together, and with libtesla's tesla_action. Manifest: Manifest::load and FindAutomaton of
-- tesla/common/Manifest.cpp, and the order of Protocol.h. The child modules hold the proofs, and
-- Tests the runs at concrete inputs.
--
-- What an automaton does is stated over words of events: NfaRun and DfaRun of Dfa/Runs are the runs
-- of an NFA and of a DFA, and TableRun of Instrument/Table those of the emitted tables. An event is
-- a label, and a transition takes it if EquivalentTo holds of the two.
--
-- State and operations. An operation takes the state and gives a Run: a value, with the new state
-- and what is told to the world (handlers, mutexes) as a list in order, or the fault of a failed
-- assertion, a bad address or a panic. A pointer to a class or an instance is its index in its
-- array. A uint32_t is a natural number, with its wrap-around written out where the code can reach
-- it. A pointer to a state of an automaton is its ID, and one to a transition is its place in the
-- vector of all transitions. The order of LLVM's SmallPtrSet, the descriptions of sub-automata, and
-- the bytes and labels of events that are only printed or hashed, are parameters. Allocation and
-- have_transitions are parameters (Env), and so are fnmatch and what stands in the uninitialised
-- part of a key on the stack.
--
-- Bounds. A loop of the source is a recursion on the number of rounds left, which is the bound that
-- the source itself compares with: the length of an array, TESLA_MAX_CLASSES, tc_limit. The outer
-- loop of late initialisation raises its counter in each round, so the size of the alphabet is
-- enough rounds. A number is printed by a recursion on sixteen or ten digits, which hold 64 bits in
-- base 16 and 32 bits in base 10. A recursion of Automaton.cpp without a bound of its own runs on
-- fuel, and ends in the fault `exhausted` where the fuel does not last: collectFrontier on the
-- depth, ConstructDFA on the rounds, which two to the power of the states are enough for, Link on
-- the nesting of sub-automata, and CalculateReachableTransitionsBetween on the number of
-- transitions, each of which it takes once.
--
-- Not modelled: negative repetition counts of a sequence, kernel code, tesla_dtrace.c, the creation
-- of the pthread key, print_class, which only prints, tesla_die, which nothing calls, and
-- interleavings of threads. The analyser, the tools and the rest of the instrumenter are C++ on top
-- of clang and LLVM; the demos, benchmarks and tests are clients. Of tesla/common the output as
-- text and as dot graphs, the reading of manifest files, which the protocol buffers library parses,
-- the names for printing and the third-party SuperFastHash.c are left out.
pub mod Base
pub mod Types
pub mod Key
pub mod Class
pub mod Lifetime
pub mod Action
pub mod Init
pub mod Update
pub mod Store
pub mod Monitor
pub mod Debug
pub mod Notify
pub mod Ir
pub mod Automata
pub mod NfaParser
pub mod Dfa
pub mod Instrument
pub mod Manifest
pub mod Tests
