-- ===== src/Lib.antt =====
-- gd2fuse mounts the files of a cloud provider by FUSE. A path of the kernel goes through the
-- handlers (src/presentation/handler.cpp) and FuseGate to a joined file system, which routes it by its
-- mount points to the provider's file system or to the configuration's. The provider's file system
-- keeps a tree of nodes, which it fills from the cloud when a directory is first read, and a cache of
-- the nodes by path and by id, which listens to the notifications of removed and changed nodes. The
-- configuration's file system shows the properties of a chain of configurations as files; a property
-- has a default value from a static table, a type that accepts or refuses values, and a value in
-- memory once it has been set.
--
-- Paths below are from the repository's root.
--   Base          shared names, equality tests, numbers, lists, association lists and texts as bytes
--   FilePath      paths as lists of elements; fromPathIt of src/utils/assets.cpp
--   Outcome       values, exceptions and undefined behaviour, as results of a command over a state;
--                 `do` blocks follow the statements of a C++ function, and a throw keeps the state as
--                 it is at the throw. An error is a G2FException or, in a category of its own, an
--                 exception of another kind, which the gate does not catch; Invariant: what
--                 commands keep and what they end in
--   Errno         the error numbers that the sources name
--   FileSystem    the interface src/fs/IFileSystem.h as a record of commands
--   Cache         src/cache/Cache.cpp: findByPath is find_by_path, insert is add, the slots keep their names
--   Node          the data and accessors of AbstractFileSystem::Node
--   Tree          src/fs/AbstractFileSystem.cpp over a heap of nodes: Lookup (find, fillDir, getRoot,
--                 get), Change (createNode, removeNodes, removeNode), Rename (renameNode),
--                 Content (openContent, truncate, updateNodeContent; Handle: the open handles), Import
--                 (importNreplace, replaceNode and insertNode, for nodes of another file system)
--   Joined        src/fs/JoinedFileSystem.cpp: buildBranch, findMountPoint and getFS, MergeIt (Merge),
--                 and the operations over the mounted file systems (Ops)
--   Gate          src/presentation/FuseGate.cpp; Handler: the handlers of src/presentation/handler.cpp
--   Attributes    fillAttr of the nodes of the three file systems, and of the configuration's handles
--   Stack         the file systems as FuseGate::run puts them together: Tree and the configuration's below
--                 Joined, with the gate's two mounts
--   Message       the texts of exceptions, src/error/G2FException.cpp (_compileMessage), as lists of bytes
--   AppError      the error category of src/error/appError.cpp
--   Content       src/fs/ContentManager.cpp: id2fileName and readContent; Files: the operations on files
--   Directories   src/control/paths/AbstractPathManager.cpp (getDir) and the XDG manager of
--                 PathManager.cpp; Managers: the other managers
--   EnumMap       the template Enum of src/utils/Enum.h over its table: conversions, steps, and the
--                 reading from a stream (operator>> is read)
--   EnumDef       src/control/types/PropertyTypeEnum.cpp: sorted entries and their binary search
--   Property      the types of src/control/types with checkValidity, StaticProperty and
--                 InMemoryProperty (src/control/props), over a store of cells
--   PropertyList  src/control/props/AbstractStaticInitPropertiesList.cpp with in-memory properties, and
--                 the registry of types; Impl's constructor is init
--   Configuration src/control/Configuration.cpp and ChainedCofiguration.cpp, the configurations of the
--                 provider, and the static tables (Tables)
--   ConfFs        src/fs/ConfFileSystem.cpp: the root, a node for each property, and the handles
--   Google        the conversions, error codes and requests of src/providers/google/GoogleProvider.cpp,
--                 and splitMime of src/utils/assets.cpp; Cloud: GoogleFileSystem's methods over the Drive
--                 service, their readers (Media), and what they answer to the tree (Backend); Auth:
--                 src/providers/google/Auth.cpp and GoogleOAuth2; Session: GoogleProviderSession,
--                 whose directories may throw and whose order of arguments is a parameter
--   PropertyFile  src/control/props/AbstractFileStaticInitPropertiesList.cpp: updateConf, readConf and the
--                 methods of FileFirstProperty, over a stream of a file (FileStream)
--   Startup       main of src/main.cpp behind the parsing of the options, Application of
--                 src/control/Application.cpp, and the arguments of FUSE in src/presentation/FuseGate.cpp
--   Providers     src/providers/ProvidersRegistry.cpp, and the choice of the provider in
--                 src/control/Application.cpp
--   Backoff       src/utils/ExponentialBackoff.cpp
--
-- Beside a module with definitions stand its theorems, in child modules named for what they prove,
-- and in many of them a module Tests with concrete runs.
--
-- The cloud's methods, which the providers implement, and the content manager are the record Backend of
-- Tree, a parameter: each call answers with a value or an error and with a new state of the outer
-- world. What a theorem assumes of an answer is one of its hypotheses. Google.Cloud.Backend fills the
-- record from the Drive library's service, which is a parameter in its turn. The mounted file systems are a
-- parameter of Joined in the same way. Parameters are also the casts of boost (Casts of Property), the
-- dates and the hexadecimal conversion of the libraries (Dates of Google), the directories of a session
-- (Dirs of Google.Session), the calls of the system
-- (Calls of Content.Files, Disk of Directories and of PropertyFile), the flow and the store of the
-- authorization (Library of Google.Auth), and the drawn numbers of Backoff.
--
-- Recursion on fuel occurs in the removal of a tree of nodes and in `delete` of a node, where the fuel
-- is the next free address, which bounds the depth of a tree whose nodes all stand below it; in
-- the scan of a message for placeholders, where it is one more than the length of the text; in the
-- binary search, where it is one more than the number of entries, which is proved to be enough; and in
-- the loops of readContent and createFile, in the copy of a file by importNreplace, in the loops over the
-- lines of a property file, where the two more than the bytes of the file are proved to be enough, in the
-- rounds of a merged listing, in the loop over the properties that
-- makes the configuration's root, and in the rounds of a reader or of a loop over an enumeration, where
-- it is an argument and the theorems say how much is enough. Reading a null or dangling pointer is the
-- outcome `fault`, or `none` where the operations are options.
--
-- Not modelled: locks and threads (each operation is one step), the clock (the time of a change is an
-- argument), the logs, the text of the messages of exceptions in file systems, patch and the branch of
-- importNreplace for a node of the same file system, the parsing of the options, and the libraries' transports to the cloud.
-- Sizes and addresses are unbounded numbers, but for the `int` of a handle's reads and of the waiting
-- times.
pub mod Base
pub mod FilePath
pub mod Outcome
pub mod Errno
pub mod FileSystem
pub mod Cache
pub mod Node
pub mod Tree
pub mod Joined
pub mod Gate
pub mod Attributes
pub mod Stack
pub mod Message
pub mod AppError
pub mod Content
pub mod Directories
pub mod EnumMap
pub mod EnumDef
pub mod Property
pub mod PropertyList
pub mod Configuration
pub mod ConfFs
pub mod Google
pub mod Providers
pub mod PropertyFile
pub mod Startup
pub mod Backoff
